-- ===== src/Heartbeat/Loops.antt =====
-- The loops of knet/heartbeat.go that `Start` launches and `Stop` ends.
use kinz.Base.{
  ℕ, zero, suc, ◌≡◌, Bool, true, false, List, [], ◌∷◌, Option, none, some, if◌then◌else◌,
}
use kinz.Heartbeat.{HeartBeatChecker, start, stop, member}

pub data Command : Type 0 where
  to_start to_stop : Command

-- The loops that run: one for each channel that was made and is not closed.
abbrev pub open_loops : ℕ → List ℕ → ℕ
open_loops zero closed = 0
open_loops (suc n) closed =
    let rest = open_loops n closed in if member (suc n) closed then rest else suc rest

abbrev pub ends_started : Bool → List Command → Bool
ends_started b [] = b
ends_started b (to_start ∷ cs) = ends_started true cs
ends_started b (to_stop ∷ cs) = ends_started false cs

abbrev down : ℕ → List ℕ
down zero = []
down (suc n) = suc n ∷ down n

-- Every channel but the last is closed, and the last is if the checker does not run.
abbrev InOrder : Bool → ℕ → List ℕ → Type 0
InOrder false quits closed = closed ≡ down quits
InOrder true quits closed = (n : ℕ) × (quits ≡ suc n) × (closed ≡ down n)

module _ {M N B H C : Type 0} where
  -- `none` is a panic.
  unfoldable pub run_commands :
      HeartBeatChecker M N B H C → List Command → Option (HeartBeatChecker M N B H C)
  run_commands h [] = some h
  run_commands h (to_start ∷ cs) = run_commands (start h) cs
  run_commands h (to_stop ∷ cs) = elim (stop h) [ none ↦ none | some h' ↦ run_commands h' cs ]

  abbrev Fine : HeartBeatChecker M N B H C → Type 0
  Fine h = InOrder h.started h.quits h.closed
