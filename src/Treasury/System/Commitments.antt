-- ===== src/Treasury/System/Commitments.antt =====
-- The commitments of a treasury over its whole history.
use helix_protocol.Prelude.{ℕ, ◌+◌, ◌-◌, ◌≤◌, ◌≡◌, refl, Bool-cases, inl, inr, arith, true}
use helix_protocol.Prelude.Lists.{All-get_elem?}
use helix_protocol.Prelude.Int.{ℤ}
use helix_protocol.Prelude.Fallible.{ok, >>-eq-ok}
use helix_protocol.Anchor.{Pubkey, Runtime, TokenProgram, TransferLaws}
use helix_protocol.Treasury.Types.{Treasury, VestingStream}
use helix_protocol.Treasury.State.{vesting_time, vested_at, epoch_at}
use helix_protocol.Treasury.State.Schedule.{
  schedule, Ordered, schedule-le, schedule_mono, vested_at-exact,
}
use helix_protocol.Treasury.Events.{SpendCapChanged, GovernanceExecutorChanged}
use helix_protocol.Treasury.Funds.{
  InitializeTreasuryAccounts, InitializeTreasuryOutcome, initialize_treasury, check_spend, spend,
  GovernanceOnly, set_spend_cap, set_governance_executor,
}
use helix_protocol.Treasury.Vesting.{
  check_claim_stream, claim_stream, ClaimStreamAccounts, ClaimStreamOutcome, check_revoke_stream,
  revoke_stream, RevokeStreamAccounts, RevokeStreamOutcome, CreateStreamAccounts,
  CreateStreamOutcome,
}
use helix_protocol.Treasury.Effects.{
  deposit-Deposits, spend_handler-Spends, Created, create_stream-Created, Claims,
  claim_stream_handler-Claims, Revokes, revoke_stream_handler-Revokes,
}
use helix_protocol.Treasury.System.Books.{
  limit, promised, IsSound, IsBacked, frame-IsBacked, open-IsBacked, set-IsBacked,
}
use helix_protocol.Treasury.System.{System, created, Step, Reach, here, next}

abbrev pub Backed : System → Type 0
Backed s = IsBacked s.treasury s.streams s.vault.amount

-- At no time has more vested than the limit of the stream.
pub schedule-le-limit : (s : VestingStream) (now : ℤ) → schedule s (vesting_time s now) ≤ limit s
schedule-le-limit s now = elim (Bool-cases s.revoked) [
  | inl revoked ↦ ground (arith, schedule_mono s (vesting_time s now) s.revoked_at (ground arith))
  | inr live ↦ ground (arith, schedule-le s (vesting_time s now))
]

claim-IsSound :
    (T : TokenProgram) (a : ClaimStreamAccounts) (now : ℤ) (out : ClaimStreamOutcome)
    → (c : Claims T a now out) → IsSound a.stream
    → IsSound out.stream × (promised out.stream + c.amount ≡ promised a.stream)
claim-IsSound T a now out c v = rw c.stream (
  record {
    ordered = record { cliff_after = v.ordered.cliff_after; end_after = v.ordered.end_after };
    within = vested-le;
  },
  omega (arith, c.due, vested-le),
)
  where
    vested-le : c.vested ≤ limit a.stream
    vested-le = omega (
      arith,
      vested_at-exact a.stream now {n = c.vested} v.ordered c.at,
      schedule-le-limit a.stream now,
    )

revoke-IsSound :
    (a : RevokeStreamAccounts) (now : ℤ) (out : RevokeStreamOutcome)
    → (r : Revokes a now out) → IsSound a.stream
    → IsSound out.stream
      × (promised out.stream + (a.stream.total_amount - r.vested) ≡ promised a.stream)
revoke-IsSound a now out r v = rw r.stream (
  record { ordered = ordered; within = omega (arith, r.kept, all_vested) },
  omega (arith, r.kept, r.bounded, all_vested, full),
)
  where
    frozen : VestingStream
    frozen = record (a.stream) { revoked = true; revoked_at = now }

    ordered : Ordered frozen
    ordered = record { cliff_after = v.ordered.cliff_after; end_after = v.ordered.end_after }

    at : vested_at frozen now ≡ ok r.vested
    at = rw r.stream at r.at

    all_vested : r.vested ≡ limit frozen
    all_vested = ground (arith, vested_at-exact frozen now {n = r.vested} ordered at)

    full : limit a.stream ≡ a.stream.total_amount
    full = ground (arith, r.live)

initialize_treasury-Backed :
    (R : Runtime) (a : InitializeTreasuryAccounts) (now : ℤ) (cap : ℕ) (epoch : ℤ)
    (out : InitializeTreasuryOutcome)
    → initialize_treasury R a now cap epoch ≡ ok out
    → Backed (created out)
unfolding initialize_treasury epoch_at
initialize_treasury-Backed R a now cap epoch out h = record {
  counted = ground arith;
  backed = ground arith;
  sound = tt;
}

create-IsSound :
    (a : CreateStreamAccounts) (id total : ℕ) (start cliff end : ℤ) (out : CreateStreamOutcome)
    → Created a id total start cliff end out
    → IsSound out.stream × (promised out.stream ≡ total)
create-IsSound a id total start cliff end out c = rw c.terms (
  record {
    ordered = record { cliff_after = c.cliff_after; end_after = c.end_after };
    within = omega arith;
  },
  omega arith,
)

set_spend_cap-frame :
    (R : Runtime) (a : GovernanceOnly) (now : ℤ) (cap : ℕ) (epoch : ℤ)
    (out : Treasury × SpendCapChanged)
    → set_spend_cap R a now cap epoch ≡ ok out
    → out.0.committed_to_streams ≡ a.treasury.committed_to_streams
unfolding set_spend_cap
set_spend_cap-frame R a now cap epoch out h = ground arith

set_governance_executor-frame :
    (R : Runtime) (a : GovernanceOnly) (now : ℤ) (new : Pubkey)
    (out : Treasury × GovernanceExecutorChanged)
    → set_governance_executor R a now new ≡ ok out
    → out.0.committed_to_streams ≡ a.treasury.committed_to_streams
unfolding set_governance_executor
set_governance_executor-frame R a now new out h = ground arith

module _ (R : Runtime) (T : TokenProgram) (laws : TransferLaws T) (s t : System) where
  -- One transaction keeps them so.
  pub Step-Backed : Step R T s t → Backed s → Backed t
  unfolding spend claim_stream revoke_stream
  Step-Backed (Step.deposits a now amount out et ev apart h e) v =
      let d = deposit-Deposits R T a now amount out h in
      rw e (
        frame-IsBacked s.treasury out.treasury s.streams s.vault.amount out.vault.amount
          (ground (arith, d.treasury)) (ground (arith, d.received, v.backed)) v)
  Step-Backed (Step.spends a now amount out et ev apart h e) v =
      let p = spend_handler-Spends T a now amount out (>>-eq-ok (check_spend R a) _ h).1 in
      let moved = laws _ _ _ _ _ _ _ _ apart p.transfer in
      rw e (
        frame-IsBacked s.treasury out.treasury s.streams s.vault.amount out.vault.amount
          (ground (arith, p.treasury, p.charge.frame)) (ground (arith, p.free, moved.debited)) v)
  Step-Backed (Step.creates a now id total start cliff end out et ev h e) v =
      let c = create_stream-Created R a now id total start cliff end out h in
      let (sound, all) = create-IsSound a id total start cliff end out c in
      rw e (
        open-IsBacked s.treasury out.treasury s.streams s.vault.amount out.stream sound
          (ground (arith, c.treasury, all)) (ground (arith, c.treasury, c.free)) v)
  Step-Backed (Step.claims a i now out et ev at apart h e) v =
      let c = claim_stream_handler-Claims T a now out (>>-eq-ok (check_claim_stream R a) _ h).1 in
      let (sound, less) =
        claim-IsSound T a now out c (All-get_elem? IsSound s.streams i a.stream v.sound at) in
      let moved = laws _ _ _ _ _ _ _ _ apart c.transfer in
      rw e (
        set-IsBacked s.treasury out.treasury s.streams s.vault.amount out.vault.amount i c.amount
          a.stream out.stream at sound less (ground (arith, c.released))
          (ground (arith, moved.debited)) v)
  Step-Backed (Step.revokes a i now out et at h e) v =
      let r = revoke_stream_handler-Revokes a now out (>>-eq-ok (check_revoke_stream R a) _ h).1 in
      let (sound, less) =
        revoke-IsSound a now out r (All-get_elem? IsSound s.streams i a.stream v.sound at) in
      rw e (
        set-IsBacked s.treasury out.treasury s.streams s.vault.amount s.vault.amount i
          (a.stream.total_amount - r.vested) a.stream out.stream at sound less
          (ground (arith, r.released)) (omega arith) v)
  Step-Backed (Step.recaps a now cap epoch out et h e) v = rw e (
      frame-IsBacked s.treasury out.0 s.streams s.vault.amount s.vault.amount
        (ground (arith, set_spend_cap-frame R a now cap epoch out h)) v.backed v)
  Step-Backed (Step.migrates a now new out et h e) v = rw e (
      frame-IsBacked s.treasury out.0 s.streams s.vault.amount s.vault.amount
        (ground (arith, set_governance_executor-frame R a now new out h)) v.backed v)
  Step-Backed (Step.gifts amount e) v = rw e (
      frame-IsBacked s.treasury s.treasury s.streams s.vault.amount (s.vault.amount + amount) refl
        (omega (arith, v.backed)) v)

Reach-Backed :
    (R : Runtime) (T : TokenProgram) (laws : TransferLaws T) (s t : System)
    → Backed s
    → Reach R T s t
    → Backed t
Reach-Backed R T laws s t v here = v
Reach-Backed R T laws s t v (next {t = m} r st) =
    Step-Backed R T laws m t st (Reach-Backed R T laws s m v r)

-- Let the token program keep the transfer laws. Then after any sequence of transactions from
-- `initialize_treasury` on, the committed amount is the sum of what is still promised to the
-- streams, the vault holds at least that, and no stream has paid out more than its limit.
pub treasury-Backed :
    (R : Runtime) (T : TokenProgram) (laws : TransferLaws T) (a : InitializeTreasuryAccounts)
    (now : ℤ) (cap : ℕ) (epoch : ℤ) (out : InitializeTreasuryOutcome) (t : System)
    → initialize_treasury R a now cap epoch ≡ ok out
    → Reach R T (created out) t
    → Backed t
treasury-Backed R T laws a now cap epoch out t h r =
    Reach-Backed R T laws (created out) t (initialize_treasury-Backed R a now cap epoch out h) r
