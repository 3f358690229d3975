-- ===== src/Treasury/System/Books.antt =====
-- The commitments of a treasury: what is promised to each stream, and how the instructions change
-- the sum.
use helix_protocol.Prelude.{ℕ, ◌+◌, ◌-◌, ◌≤◌, ◌≡◌, List, ◌∷◌, some, if◌then◌else◌, arith}
use helix_protocol.Prelude.Lists.{sum_by, All, get_elem?, set, sum_by-set, All-set}
use helix_protocol.Treasury.Types.{Treasury, VestingStream}
use helix_protocol.Treasury.State.Schedule.{schedule, Ordered}

-- All that a stream can ever pay out: its total, or what had vested when it was revoked.
abbrev pub limit : VestingStream → ℕ
limit s = if s.revoked then schedule s s.revoked_at else s.total_amount

-- What is still promised to the beneficiary.
abbrev pub promised : VestingStream → ℕ
promised s = limit s - s.claimed

pub record IsSound (s : VestingStream) : Type 0 where
  pub ordered : Ordered s
  pub within : s.claimed ≤ limit s

-- INVARIANTS.md 1.6: the commitments are the sum of what is promised, and lie in the vault.
pub record IsBacked (t : Treasury) (xs : List VestingStream) (balance : ℕ) : Type 0 where
  pub counted : t.committed_to_streams ≡ sum_by promised xs
  pub backed : t.committed_to_streams ≤ balance
  pub sound : All IsSound xs

-- The fields that the commitments do not read may change, and the vault keeps what is promised.
pub frame-IsBacked :
    (t t' : Treasury) (xs : List VestingStream) (b b' : ℕ)
    → t'.committed_to_streams ≡ t.committed_to_streams
    → t.committed_to_streams ≤ b'
    → IsBacked t xs b
    → IsBacked t' xs b'
frame-IsBacked t t' xs b b' e le v = record {
  counted = omega (arith, v.counted);
  backed = omega arith;
  sound = v.sound;
}

pub open-IsBacked :
    (t t' : Treasury) (xs : List VestingStream) (b : ℕ) (s : VestingStream)
    → IsSound s
    → t'.committed_to_streams ≡ t.committed_to_streams + promised s
    → t'.committed_to_streams ≤ b
    → IsBacked t xs b
    → IsBacked t' (s ∷ xs) b
open-IsBacked t t' xs b s sound e le v = record {
  counted = omega (arith, v.counted);
  backed = le;
  sound = (sound, v.sound);
}

-- A stream is replaced by one to which `less` is promised less; the vault gives up no more.
pub set-IsBacked :
    (t t' : Treasury) (xs : List VestingStream) (b b' i less : ℕ) (old new : VestingStream)
    → get_elem? xs i ≡ some old
    → IsSound new
    → promised new + less ≡ promised old
    → t'.committed_to_streams + less ≡ t.committed_to_streams
    → b ≤ b' + less
    → IsBacked t xs b
    → IsBacked t' (set xs i new) b'
set-IsBacked t t' xs b b' i less old new at sound e ec eb v = record {
  counted = omega (arith, v.counted, sum_by-set promised xs i old new at);
  backed = omega (arith, v.backed);
  sound = All-set IsSound xs i new v.sound sound;
}
