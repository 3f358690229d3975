-- ===== src/Treasury/System/Streams.antt =====
-- Streams from the side of the beneficiary: `revoke_stream` and `claim_stream` of
-- programs/treasury/src/instructions/vesting.rs.
use native.Mathlib.Nat.{mul-le-mul}
use helix_protocol.Prelude.{
  ℕ, ◌+◌, ◌-◌, ◌*◌, ◌/◌, ◌≤◌, ◌<◌, ◌≡◌, some, List, Bool-cases, inl, inr, true, false, arith,
}
use helix_protocol.Prelude.Lists.{get_elem?, le-sum_by, All-get_elem?}
use helix_protocol.Prelude.Int.{ℤ, ◌<ℤ◌, min_ℤ-eq_right, ◌-ℤ◌, ◌≤ℤ◌, gap, ltb_ℤ, leb_ℤ}
use helix_protocol.Prelude.Machine.{u64_max, i64_max, as_u128--ℤ}
use helix_protocol.Prelude.Fallible.{ok}
use helix_protocol.Anchor.{TokenAccount, TokenProgram}
use helix_protocol.Treasury.Types.{VestingStream}
use helix_protocol.Treasury.State.{vesting_time, vested_between, vested_at, claimable_at}
use helix_protocol.Treasury.State.Schedule.{schedule, Ordered, scaled-le, schedule-le}
use helix_protocol.Treasury.Vesting.{
  ClaimStreamAccounts, ClaimStreamOutcome, claim_stream_handler, RevokeStreamAccounts,
  RevokeStreamOutcome, revoke_stream_handler,
}
use helix_protocol.Treasury.Effects.{Revokes, revoke_stream_handler-Revokes}
use helix_protocol.Treasury.System.Books.{promised, IsSound, IsBacked}
use helix_protocol.Treasury.System.Commitments.{schedule-le-limit}

-- A stream frozen at `now` has, at `now` and ever after, what it had at `now`.
frozen-vested_at :
    (s : VestingStream) (now later : ℤ)
    → s.revoked ≡ false
    → now ≤ℤ later
    → vested_at (record s { revoked = true; revoked_at = now }) later ≡ vested_at s now
unfolding vested_at vested_between
frozen-vested_at s now later live le = ground (arith, min_ℤ-eq_right later now le)

-- When a revocation succeeds, what was claimable at that moment stays claimable, to the token, at
-- every later time, and is what the event reports as retained.
pub revoke-keeps_vested :
    (a : RevokeStreamAccounts) (now later : ℤ) (out : RevokeStreamOutcome)
    → revoke_stream_handler a now ≡ ok out
    → now ≤ℤ later
    → (claimable_at out.stream later ≡ claimable_at a.stream now)
      × (claimable_at a.stream now ≡ ok out.event.vested_retained)
unfolding claimable_at
revoke-keeps_vested a now later out h le = (
  rw (r.stream, frozen-vested_at a.stream now later r.live le),
  ground (
    arith,
    r.at,
    r.stream,
    r.retained,
    r.kept,
    frozen-vested_at a.stream now now r.live (omega arith),
  ),
)
  where
    r : Revokes a now out
    r = revoke_stream_handler-Revokes a now out h

vested_between_total :
    (s : VestingStream) (t : ℤ)
    → s.start_ts ≤ℤ t
    → t <ℤ s.end_ts
    → gap s.start_ts s.end_ts ≤ i64_max
    → s.total_amount ≤ u64_max
    → vested_between s t ≡ ok (s.total_amount * gap s.start_ts t / gap s.start_ts s.end_ts)
unfolding vested_between ◌-ℤ◌
vested_between_total s t a b fits small = ground (
  arith,
  as_u128--ℤ t s.start_ts a,
  as_u128--ℤ s.end_ts s.start_ts (omega arith),
  scaled-le s.total_amount (gap s.start_ts t) (gap s.start_ts s.end_ts) (omega arith),
  mul-le-mul {n₁ = s.total_amount} {m₁ = gap s.start_ts t} {n₂ = u64_max} {m₂ = i64_max} small
      (omega arith),
)

-- An ordered schedule that an `i64` can measure has its value at every time.
pub vested_at_total :
    (s : VestingStream) (now : ℤ)
    → Ordered s
    → gap s.start_ts s.end_ts ≤ i64_max
    → s.total_amount ≤ u64_max
    → vested_at s now ≡ ok (schedule s (vesting_time s now))
unfolding vested_at
vested_at_total s now o fits small = elim (Bool-cases (ltb_ℤ t s.cliff_ts)) [
  | inl early ↦ ground arith
  | inr reached ↦ elim (Bool-cases (leb_ℤ s.end_ts t)) [
    | inl over ↦ ground arith
    | inr running ↦
        ground (
          arith,
          vested_between_total s t (ground (arith, o.cliff_after)) (ground arith) fits small,
        )
  ]
]
  where
    t : ℤ
    t = vesting_time s now

claim_due :
    (T : TokenProgram) (a : ClaimStreamAccounts) (now : ℤ) (due : ℕ) (vault receiver : TokenAccount)
    → vested_at a.stream now ≡ ok due
    → a.stream.claimed < due
    → due ≤ u64_max
    → due - a.stream.claimed ≤ a.treasury.committed_to_streams
    → T.transfer_checked a.vault a.mint a.beneficiary_token_account a.vault_authority
        (due - a.stream.claimed)
        a.mint.decimals
      ≡ some (vault, receiver)
    → (out : ClaimStreamOutcome) × (claim_stream_handler T a now ≡ ok out)
      × (out.stream.claimed ≡ due)
unfolding claim_stream_handler claimable_at
claim_due T a now due vault receiver vested more small covered et = (
  record {
    treasury = record (a.treasury) {
      committed_to_streams = a.treasury.committed_to_streams - (due - a.stream.claimed);
    };
    stream = record (a.stream) { claimed = a.stream.claimed + (due - a.stream.claimed) };
    vault = vault;
    beneficiary_token_account = receiver;
    event = record {
      treasury = a.treasury_key;
      stream = a.stream_key;
      beneficiary = a.beneficiary;
      amount = due - a.stream.claimed;
      total_claimed = a.stream.claimed + (due - a.stream.claimed);
      timestamp = now;
    };
  },
  ground arith,
  omega arith,
)

-- In a backed treasury, a beneficiary to whom the schedule gives more than was claimed can claim
-- it whenever the token program moves the tokens, for a schedule whose length an `i64` measures
-- and whose total is a `u64`: the commitments of the treasury cover the claim, and the stream then
-- counts all that is due as claimed.
pub claim_stream_succeeds :
    (T : TokenProgram) (a : ClaimStreamAccounts) (xs : List VestingStream) (i : ℕ) (now : ℤ)
    (vault receiver : TokenAccount)
    → IsBacked a.treasury xs a.vault.amount
    → get_elem? xs i ≡ some a.stream
    → gap a.stream.start_ts a.stream.end_ts ≤ i64_max
    → a.stream.total_amount ≤ u64_max
    → let due = schedule a.stream (vesting_time a.stream now) in
      a.stream.claimed < due
      → T.transfer_checked a.vault a.mint a.beneficiary_token_account a.vault_authority
          (due - a.stream.claimed)
          a.mint.decimals
        ≡ some (vault, receiver)
      → (out : ClaimStreamOutcome) × (claim_stream_handler T a now ≡ ok out)
        × (out.stream.claimed ≡ due)
claim_stream_succeeds T a xs i now vault receiver v at fits small more et =
    claim_due T a now due vault receiver (vested_at_total a.stream now sound.ordered fits small)
      more (omega (arith, capped)) covered et
  where
    due : ℕ
    due = schedule a.stream (vesting_time a.stream now)

    sound : IsSound a.stream
    sound = All-get_elem? IsSound xs i a.stream v.sound at

    capped : due ≤ a.stream.total_amount
    capped = schedule-le a.stream (vesting_time a.stream now)

    covered : due - a.stream.claimed ≤ a.treasury.committed_to_streams
    covered =
        omega
          (arith, le-sum_by promised xs i a.stream at, schedule-le-limit a.stream now, v.counted)
