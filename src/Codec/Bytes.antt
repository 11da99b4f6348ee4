-- ===== src/Codec/Bytes.antt =====
-- The byte orders of knet/datapack.go: reading a uint32 and writing one undo each other.
use kinz.Base.{ℕ, ◌^◌, ◌≤◌, ◌<◌, ◌≡◌, refl, List, [], ◌∷◌, length, take, All, arith}
use kinz.Codec.{ByteOrder, little_endian, big_endian, get_uint32, put_uint32}

abbrev pub IsByte : ℕ → Type 0
IsByte b = b < 256

abbrev pub IsUint32 : ℕ → Type 0
IsUint32 v = v < 2 ^ 32

pub length-put_uint32 : (o : ByteOrder) (v : ℕ) → length (put_uint32 o v) ≡ 4
unfolding put_uint32
length-put_uint32 little_endian v = refl
length-put_uint32 big_endian v = refl

pub put_uint32-IsByte : (o : ByteOrder) (v : ℕ) → All IsByte (put_uint32 o v)
unfolding put_uint32
put_uint32-IsByte little_endian v = omega arith
put_uint32-IsByte big_endian v = omega arith

pub get_uint32-put_uint32 : (o : ByteOrder) (v : ℕ) → IsUint32 v → get_uint32 o (put_uint32 o v) ≡ v
unfolding get_uint32 put_uint32
get_uint32-put_uint32 little_endian v h = omega arith
get_uint32-put_uint32 big_endian v h = omega arith

pub get_uint32-IsUint32 : (o : ByteOrder) (bs : List ℕ) → All IsByte bs → IsUint32 (get_uint32 o bs)
unfolding get_uint32
get_uint32-IsUint32 little_endian (a ∷ b ∷ c ∷ d ∷ rest) h = omega arith
get_uint32-IsUint32 big_endian (a ∷ b ∷ c ∷ d ∷ rest) h = omega arith
get_uint32-IsUint32 o [] h = ground arith
get_uint32-IsUint32 o (a ∷ []) h = ground arith
get_uint32-IsUint32 o (a ∷ b ∷ []) h = ground arith
get_uint32-IsUint32 o (a ∷ b ∷ c ∷ []) h = ground arith

four_bytes :
    (o : ByteOrder) (a b c d : ℕ)
    → All IsByte (a ∷ b ∷ c ∷ d ∷ [])
    → put_uint32 o (get_uint32 o (a ∷ b ∷ c ∷ d ∷ [])) ≡ a ∷ b ∷ c ∷ d ∷ []
unfolding get_uint32 put_uint32
four_bytes little_endian a b c d h = ground arith
four_bytes big_endian a b c d h = ground arith

pub put_uint32-get_uint32 :
    (o : ByteOrder) (bs : List ℕ)
    → All IsByte bs
    → 4 ≤ length bs
    → put_uint32 o (get_uint32 o (take 4 bs)) ≡ take 4 bs
put_uint32-get_uint32 o (a ∷ b ∷ c ∷ d ∷ rest) h le =
    four_bytes o a b c d (h.0, (h.1.0, (h.1.1.0, (h.1.1.1.0, tt))))
put_uint32-get_uint32 o [] h le = absurd (omega arith)
put_uint32-get_uint32 o (a ∷ []) h le = absurd (omega arith)
put_uint32-get_uint32 o (a ∷ b ∷ []) h le = absurd (omega arith)
put_uint32-get_uint32 o (a ∷ b ∷ c ∷ []) h le = absurd (omega arith)
