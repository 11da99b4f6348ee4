-- ===== src/Config/Numbers.antt =====
-- The numbers of KINZ_* variables, `strconv.ParseUint` and `strconv.Atoi`.
use kinz.Base.{
  ℕ, suc, ◌+◌, ◌-◌, ◌*◌, ◌^◌, ◌<◌, ◌≡◌, refl, ap, sym, ◌∙◌, true, ◌&&◌, List, [], ◌∷◌, map, length,
  All, Option, none, some, leb, arith,
}
use kinz.Config.{digits, unsigned, below, parse_uint32}

-- The number that decimal digits stand for, each with the power of ten of its place.
abbrev pub value : List ℕ → ℕ
value [] = 0
value (d ∷ ds) = d * 10 ^ length ds + value ds

abbrev pub IsDigit : ℕ → Type 0
IsDigit d = d < 10

abbrev pub shown : List ℕ → List ℕ
shown ds = map (λ d. b'0' + d) ds

pow-suc : (n : ℕ) → 10 ^ suc n ≡ 10 * 10 ^ n
pow-suc n = omega arith

shown_step : (n d p v : ℕ) → (10 * n + d) * p + v ≡ n * (10 * p) + (d * p + v)
shown_step n d p v = grind arith

digit_read : (d : ℕ) → IsDigit d → (leb b'0' (b'0' + d) && leb (b'0' + d) b'9') ≡ true
digit_read d h = ground arith

digits-step :
    (c : ℕ) (cs : List ℕ) (n : ℕ)
    → (leb b'0' c && leb c b'9') ≡ true
    → digits (c ∷ cs) n ≡ digits cs (10 * n + (c - b'0'))
unfolding digits
digits-step c cs n e = rw (e, digits) refl

digits-shown :
    (ds : List ℕ) (n : ℕ)
    → All IsDigit ds
    → digits (shown ds) n ≡ some (n * 10 ^ length ds + value ds)
unfolding digits
digits-shown [] n h = ap some (omega arith)
digits-shown (d ∷ ds) n h =
    let m : 10 * n + (b'0' + d - b'0') ≡ 10 * n + d = omega arith in
    digits-step (b'0' + d) (shown ds) n (digit_read d h.0)
    ∙ ap (digits (shown ds)) m
    ∙ digits-shown ds (10 * n + d) h.1
    ∙ ap some (
        shown_step n d (10 ^ length ds) (value ds)
        ∙ ap (λ (p : ℕ). n * p + (d * 10 ^ length ds + value ds)) (sym (pow-suc (length ds))))

unsigned-shown :
    (d : ℕ) (ds : List ℕ) → All IsDigit (d ∷ ds) → unsigned (shown (d ∷ ds)) ≡ some (value (d ∷ ds))
unfolding unsigned
unsigned-shown d ds h = digits-shown (d ∷ ds) 0 h ∙ ap some (omega arith)

-- A string of decimal digits is read as the number that it stands for, if that is below 2 ^ 32,
-- and refused otherwise.
pub parse_uint32_lem :
    (d : ℕ) (ds : List ℕ)
    → All IsDigit (d ∷ ds)
    → parse_uint32 (shown (d ∷ ds)) ≡ below (2 ^ 32) (some (value (d ∷ ds)))
unfolding parse_uint32
parse_uint32_lem d ds h = ap (below (2 ^ 32)) (unsigned-shown d ds h)

-- What `ParseUint` returns fits its 32 bits, whatever the string.
pub parse_uint32-range : (v : List ℕ) (n : ℕ) → parse_uint32 v ≡ some n → n < 2 ^ 32
unfolding parse_uint32
parse_uint32-range v n e = by_case (unsigned v) e
  where
    by_case : (o : Option ℕ) → below (2 ^ 32) o ≡ some n → n < 2 ^ 32
    by_case none e = cc
    by_case (some k) e = ground arith
