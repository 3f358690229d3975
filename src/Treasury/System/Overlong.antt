-- ===== src/Treasury/System/Overlong.antt =====
-- A schedule that an `i64` does not measure: `create_stream`, `claim_stream` and `revoke_stream` of
-- programs/treasury/src/instructions/vesting.rs.
use helix_protocol.Prelude.{◌<◌, ◌≡◌, false}
use helix_protocol.Prelude.Int.{ℤ, ◌≤ℤ◌, ◌<ℤ◌, gap}
use helix_protocol.Prelude.Machine.{i64_max}
use helix_protocol.Treasury.Types.{VestingStream}
use helix_protocol.Treasury.Vesting.{CreateStreamOutcome}

-- The schedule of a stream from its cliff on and before its end, where an `i64` does not measure it.
record Stuck (s : VestingStream) (t : ℤ) : Type 0 where
  live : s.revoked ≡ false
  started : s.start_ts ≤ℤ s.cliff_ts
  reached : s.cliff_ts ≤ℤ t
  running : t <ℤ s.end_ts
  long : i64_max < gap s.start_ts s.end_ts

-- The outcome of a creation, with another end of the schedule.
abbrev pub ending : CreateStreamOutcome → ℤ → CreateStreamOutcome
ending out end = record out {
  stream = record (out.stream) { end_ts = end };
  event = record (out.event) { end_ts = end };
}
