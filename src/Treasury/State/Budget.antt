-- ===== src/Treasury/State/Budget.antt =====
-- The spend budget: `Treasury::charge_epoch_budget` of programs/treasury/src/state.rs.
use helix_protocol.Prelude.{
  ℕ, ◌+◌, ◌≤◌, ◌≡◌, refl, ◌∙◌, List, [], ◌∷◌, inl, inr, arith, ◌==◌, if◌then◌else◌,
}
use helix_protocol.Prelude.Lists.{sum_by, All}
use helix_protocol.Prelude.Int.{ℤ}
use helix_protocol.Prelude.Fallible.{ok, ◌>>=◌, Result-cases, >>=-eq-ok}
use helix_protocol.Treasury.Types.{Treasury}
use helix_protocol.Treasury.State.{Fallible, epoch_at, charge_epoch_budget}

-- What a successful charge leaves: the epoch of the charge is current, and the charge is added to
-- what was spent in it before, within the cap.
pub record Charged (t : Treasury) (amount : ℕ) (now : ℤ) (t' : Treasury) : Type 0 where
  pub epoch : ℕ
  pub spent : ℕ
  pub at : epoch_at t now ≡ ok epoch
  pub used : spent ≡ (if epoch == t.current_epoch then t.spent_this_epoch else 0) + amount
  pub capped : spent ≤ t.epoch_spend_cap
  pub frame : t' ≡ record t { current_epoch = epoch; spent_this_epoch = spent }

pub charge_epoch_budget-Charged :
    (t : Treasury) (amount : ℕ) (now : ℤ) (t' : Treasury)
    → charge_epoch_budget t amount now ≡ ok t'
    → Charged t amount now t'
unfolding charge_epoch_budget
charge_epoch_budget-Charged t amount now t' h = elim (Result-cases (epoch_at t now)) [
  | inl (f, e) ↦ ground arith
  | inr (epoch, e) ↦ record {
    epoch = epoch;
    spent = (if epoch == t.current_epoch then t.spent_this_epoch else 0) + amount;
    at = e;
    used = omega arith;
    capped = ground arith;
    frame = ground arith;
  }
]

-- The budget is charged for each payment in turn: an amount and the time of its payment.
unfoldable pub charge_all : Treasury → List (ℕ × ℤ) → Fallible Treasury
charge_all t [] = ok t
charge_all t ((amount, now) ∷ xs) = charge_epoch_budget t amount now >>= λ t'. charge_all t' xs

abbrev pub paid : List (ℕ × ℤ) → ℕ
paid = sum_by (λ x. x.0)

-- All payments fall into the epoch with index `e`.
abbrev pub Within : Treasury → ℕ → List (ℕ × ℤ) → Type 0
Within t e = All (λ x. epoch_at t x.1 ≡ ok e)

-- `epoch_at` reads nothing that a charge changes.
epoch_at-frame :
    (t : Treasury) (epoch spent : ℕ) (now : ℤ)
    → epoch_at (record t { current_epoch = epoch; spent_this_epoch = spent }) now ≡ epoch_at t now
unfolding epoch_at
epoch_at-frame t epoch spent now = refl

charge-epoch_at :
    (t t' : Treasury) (amount : ℕ) (now later : ℤ)
    → Charged t amount now t'
    → epoch_at t' later ≡ epoch_at t later
charge-epoch_at t t' amount now later c = rw c.frame (epoch_at-frame t c.epoch c.spent later)

same_epoch :
    (t : Treasury) (now : ℤ) (a b : ℕ) → epoch_at t now ≡ ok a → epoch_at t now ≡ ok b → a ≡ b
same_epoch t now a b p q = cc

charge_all-spent :
    (t₀ t t' : Treasury) (e : ℕ) (xs : List (ℕ × ℤ))
    → ((now : ℤ) → epoch_at t now ≡ epoch_at t₀ now)
    → t.current_epoch ≡ e
    → t.spent_this_epoch ≤ t.epoch_spend_cap
    → Within t₀ e xs
    → charge_all t xs ≡ ok t'
    → t.spent_this_epoch + paid xs ≤ t.epoch_spend_cap
unfolding charge_all
charge_all-spent t₀ t t' e [] same c s w h = omega arith
charge_all-spent t₀ t t' e ((amount, now) ∷ xs) same c s w h =
    let (t₁, e₁, rest) = >>=-eq-ok (charge_epoch_budget t amount now) (λ q. charge_all q xs) h in
    let k = charge_epoch_budget-Charged t amount now t₁ e₁ in
    let now_e : k.epoch ≡ e = same_epoch t now k.epoch e k.at (same now ∙ w.0) in
    let ih =
      charge_all-spent t₀ t₁ t' e xs (λ later. charge-epoch_at t t₁ amount now later k ∙ same later)
        (ground (arith, k.frame, now_e)) (ground (arith, k.frame, k.capped)) w.1 rest in
    ground (arith, k.frame, k.used, now_e, ih)

-- Whatever was spent before, the payments charged within one epoch, all of them successfully, add
-- up to no more than the cap.
pub charge_all-le-cap :
    (t t' : Treasury) (e : ℕ) (xs : List (ℕ × ℤ))
    → Within t e xs
    → charge_all t xs ≡ ok t'
    → paid xs ≤ t.epoch_spend_cap
unfolding charge_all
charge_all-le-cap t t' e [] w h = omega arith
charge_all-le-cap t t' e ((amount, now) ∷ xs) w h =
    let (t₁, e₁, rest) = >>=-eq-ok (charge_epoch_budget t amount now) (λ q. charge_all q xs) h in
    let k = charge_epoch_budget-Charged t amount now t₁ e₁ in
    let now_e : k.epoch ≡ e = same_epoch t now k.epoch e k.at w.0 in
    let ih =
      charge_all-spent t t₁ t' e xs (λ later. charge-epoch_at t t₁ amount now later k)
        (ground (arith, k.frame, now_e)) (ground (arith, k.frame, k.capped)) w.1 rest in
    ground (arith, k.frame, k.used, ih)
