-- ===== src/Staking/System/Solvency.antt =====
-- The books of a pool over its whole history: the solvency of programs/staking.
use helix_protocol.Prelude.{◌+◌, ◌≡◌, refl, arith}
use helix_protocol.Prelude.Int.{ℤ}
use helix_protocol.Prelude.Fallible.{ok}
use helix_protocol.Anchor.{Runtime, TokenProgram, TransferLaws}
use helix_protocol.Staking.State.{ensure_closable}
use helix_protocol.Staking.Withdraw.{ClosePositionAccounts, close_position}
use helix_protocol.Staking.Events.{PositionClosed}
use helix_protocol.Staking.Admin.{InitializePoolAccounts, InitializePoolOutcome, initialize_pool}
use helix_protocol.Staking.Effects.Stake.{stake-Opened}
use helix_protocol.Staking.Effects.Withdraw.{
  unstake-Withdrawn, claim-Claimed, ensure_closable-empty,
}
use helix_protocol.Staking.Effects.Admin.{fund_rewards-Funded, set_reward_rate-Retuned}
use helix_protocol.Staking.Books.{IsSolvent}
use helix_protocol.Staking.Books.Change.{erase_at-IsSolvent, frame-IsSolvent, keep-IsSolvent}
use helix_protocol.Staking.System.{System, created, Step, Reach, here, next}
use helix_protocol.Staking.System.Preserves.{
  stake-IsSolvent, unstake-IsSolvent, claim-IsSolvent, retune-IsSolvent, set_paused-frame,
  propose_authority-frame, accept_authority-frame,
}

abbrev pub Solvent : System → Type 0
Solvent s = IsSolvent s.pool s.positions s.stake_vault.amount s.reward_vault.amount

initialize_pool-Solvent :
    (R : Runtime) (a : InitializePoolAccounts) (now : ℤ) (out : InitializePoolOutcome)
    → initialize_pool R a now ≡ ok out
    → Solvent (created out)
unfolding initialize_pool
initialize_pool-Solvent R a now out h = record {
  staked = ground arith;
  backed = ground arith;
  weighted = ground arith;
  sound = tt;
  solvent = ground arith;
  bounded = ground arith;
  funded = ground arith;
}

close_position-empty :
    (R : Runtime) (a : ClosePositionAccounts) (now : ℤ) (e : PositionClosed)
    → close_position R a now ≡ ok e
    → ensure_closable a.position ≡ ok tt
unfolding close_position
close_position-empty R a now e h = ground arith

module _ (R : Runtime) (T : TokenProgram) (laws : TransferLaws T) (s t : System) where
  -- One transaction keeps a pool solvent.
  pub Step-Solvent : Step R T s t → Solvent s → Solvent t
  Step-Solvent (Step.stakes a now id amount tier out ep ev apart h e) v = rw e (
      stake-IsSolvent T s.positions s.reward_vault.amount a now id amount tier out
        (stake-Opened R T a now id amount tier out h) (rw (ep, ev) v))
  Step-Solvent (Step.unstakes a i now amount out ep ev at apart h e) v =
      let w = unstake-Withdrawn R T a now amount out h in
      rw e (
        unstake-IsSolvent T s.positions s.reward_vault.amount a i now amount out at w
          (laws _ _ _ _ _ _ _ _ apart w.transfer) (rw (ep, ev) v))
  Step-Solvent (Step.claims a i now out ep ev at apart h e) v =
      let c = claim-Claimed R T a now out h in
      rw e (
        claim-IsSolvent T s.positions s.stake_vault.amount a i now out at c
          (laws _ _ _ _ _ _ _ _ apart c.transfer) (rw (ep, ev) v))
  Step-Solvent (Step.closes a i now event ep at h e) v =
      let (ea, ew, _) = ensure_closable-empty a.position (close_position-empty R a now event h) in
      rw e (
        erase_at-IsSolvent s.pool s.positions s.stake_vault.amount s.reward_vault.amount v i
          a.position at ea ew)
  Step-Solvent (Step.funds a now amount out ep ev apart h e) v =
      let f = fund_rewards-Funded R T a now amount out h in
      rw e (
        frame-IsSolvent a.pool out.pool s.positions s.stake_vault.amount s.reward_vault.amount
          s.stake_vault.amount out.reward_vault.amount (ground (arith, f.pool)) (omega arith)
          (ground (arith, f.received)) (rw ep v))
  Step-Solvent (Step.retunes a now rate period_end out ep ev h e) v =
      rw (e, ← ev)
        (retune-IsSolvent s.positions s.stake_vault.amount a now rate period_end out.0
          (set_reward_rate-Retuned R a now rate period_end out h) (rw (ep, ev) v))
  Step-Solvent (Step.pauses a now paused out ep h e) v = rw e (
      keep-IsSolvent a.pool out.0 s.positions s.stake_vault.amount s.reward_vault.amount
        (ground (arith, set_paused-frame R a now paused out h)) (rw ep v))
  Step-Solvent (Step.proposes a now new out ep h e) v = rw e (
      keep-IsSolvent a.pool out.0 s.positions s.stake_vault.amount s.reward_vault.amount
        (ground (arith, propose_authority-frame R a now new out h)) (rw ep v))
  Step-Solvent (Step.accepts a now out ep h e) v = rw e (
      keep-IsSolvent a.pool out.0 s.positions s.stake_vault.amount s.reward_vault.amount
        (ground (arith, accept_authority-frame R a now out h)) (rw ep v))
  Step-Solvent (Step.gifts to_stake to_reward e) v = rw e (
      frame-IsSolvent s.pool s.pool s.positions s.stake_vault.amount s.reward_vault.amount
        (s.stake_vault.amount + to_stake) (s.reward_vault.amount + to_reward) refl (omega arith)
        (omega arith) v)

Reach-Solvent :
    (R : Runtime) (T : TokenProgram) (laws : TransferLaws T) (s t : System)
    → Solvent s
    → Reach R T s t
    → Solvent t
Reach-Solvent R T laws s t v here = v
Reach-Solvent R T laws s t v (next {t = m} r st) =
    Step-Solvent R T laws m t st (Reach-Solvent R T laws s m v r)

-- Let the token program keep the transfer laws. Then after any sequence of transactions from
-- `initialize_pool` on, the books of the pool are solvent: the two totals are the sums over the
-- open positions, the stake vault holds at least the staked total, what the positions are owed is
-- within what was accrued and not paid, and the reward vault covers that and all that the current
-- rate still promises.
pub pool-Solvent :
    (R : Runtime) (T : TokenProgram) (laws : TransferLaws T) (a : InitializePoolAccounts) (now : ℤ)
    (out : InitializePoolOutcome) (t : System)
    → initialize_pool R a now ≡ ok out
    → Reach R T (created out) t
    → Solvent t
pool-Solvent R T laws a now out t h r =
    Reach-Solvent R T laws (created out) t (initialize_pool-Solvent R a now out h) r
