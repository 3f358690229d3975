-- ===== src/TokenManager/State/Cap.antt =====
-- The epoch cap of a minter: `Minter::accrue` of programs/token-manager/src/state.rs.
use helix_protocol.Prelude.{
  ℕ, ◌+◌, ◌≤◌, ◌≡◌, refl, ◌∙◌, true, List, [], ◌∷◌, inl, inr, arith, ◌==◌, if◌then◌else◌,
}
use helix_protocol.Prelude.Lists.{sum_by, All}
use helix_protocol.Prelude.Int.{ℤ}
use helix_protocol.Prelude.Fallible.{ok, ◌>>=◌, Result-cases, >>=-eq-ok}
use helix_protocol.TokenManager.Types.{Minter}
use helix_protocol.TokenManager.State.{Fallible, epoch_at, accrue}

-- What a successful issuance leaves.
pub record Accrued (m : Minter) (amount : ℕ) (now : ℤ) (m' : Minter) : Type 0 where
  pub enabled : m.enabled ≡ true
  pub epoch : ℕ
  pub used : ℕ
  pub at : epoch_at m now ≡ ok epoch
  pub counted : used ≡ (if epoch == m.current_epoch then m.minted_this_epoch else 0) + amount
  pub capped : used ≤ m.epoch_cap
  pub frame : m' ≡ record m {
    current_epoch = epoch;
    minted_this_epoch = used;
    total_minted = m.total_minted + amount;
  }

pub accrue-Accrued :
    (m : Minter) (amount : ℕ) (now : ℤ) (m' : Minter)
    → accrue m amount now ≡ ok m'
    → Accrued m amount now m'
unfolding accrue
accrue-Accrued m amount now m' h = elim (Result-cases (epoch_at m now)) [
  | inl (f, e) ↦ ground arith
  | inr (epoch, e) ↦ record {
    enabled = ground arith;
    epoch = epoch;
    used = (if epoch == m.current_epoch then m.minted_this_epoch else 0) + amount;
    at = e;
    counted = refl;
    capped = ground arith;
    frame = ground arith;
  }
]

-- The issuances of a minter in turn: an amount and the time of each.
unfoldable pub accrue_all : Minter → List (ℕ × ℤ) → Fallible Minter
accrue_all m [] = ok m
accrue_all m ((amount, now) ∷ xs) = accrue m amount now >>= λ m'. accrue_all m' xs

abbrev pub issued : List (ℕ × ℤ) → ℕ
issued = sum_by (λ x. x.0)

-- All issuances fall into the epoch with index `e`.
abbrev pub Within : Minter → ℕ → List (ℕ × ℤ) → Type 0
Within m e = All (λ x. epoch_at m x.1 ≡ ok e)

epoch_at-frame :
    (m : Minter) (epoch used total : ℕ) (now : ℤ)
    → epoch_at
        (record m { current_epoch = epoch; minted_this_epoch = used; total_minted = total })
        now
      ≡ epoch_at m now
unfolding epoch_at
epoch_at-frame m epoch used total now = refl

accrue-epoch_at :
    (m m' : Minter) (amount : ℕ) (now later : ℤ)
    → Accrued m amount now m'
    → epoch_at m' later ≡ epoch_at m later
accrue-epoch_at m m' amount now later c =
    rw c.frame (epoch_at-frame m c.epoch c.used (m.total_minted + amount) later)

same_epoch :
    (m : Minter) (now : ℤ) (a b : ℕ) → epoch_at m now ≡ ok a → epoch_at m now ≡ ok b → a ≡ b
same_epoch m now a b p q = cc

accrue_all-used :
    (m₀ m m' : Minter) (e : ℕ) (xs : List (ℕ × ℤ))
    → ((now : ℤ) → epoch_at m now ≡ epoch_at m₀ now)
    → m.current_epoch ≡ e
    → m.minted_this_epoch ≤ m.epoch_cap
    → Within m₀ e xs
    → accrue_all m xs ≡ ok m'
    → (m.minted_this_epoch + issued xs ≤ m.epoch_cap)
      × (m'.total_minted ≡ m.total_minted + issued xs)
unfolding accrue_all
accrue_all-used m₀ m m' e [] same c s w h = ground arith
accrue_all-used m₀ m m' e ((amount, now) ∷ xs) same c s w h =
    let (m₁, e₁, rest) = >>=-eq-ok (accrue m amount now) (λ q. accrue_all q xs) h in
    let k = accrue-Accrued m amount now m₁ e₁ in
    let now_e : k.epoch ≡ e = same_epoch m now k.epoch e k.at (same now ∙ w.0) in
    let ih =
      accrue_all-used m₀ m₁ m' e xs (λ later. accrue-epoch_at m m₁ amount now later k ∙ same later)
        (ground (arith, k.frame, now_e)) (ground (arith, k.frame, k.capped)) w.1 rest in
    ground (arith, k.frame, k.counted, now_e, ih)

-- Whatever it issued before, the successful issuances of a minter within one epoch add up to no
-- more than its cap, and its lifetime total grows by exactly their sum.
pub accrue_all-le-cap :
    (m m' : Minter) (e : ℕ) (xs : List (ℕ × ℤ))
    → Within m e xs
    → accrue_all m xs ≡ ok m'
    → (issued xs ≤ m.epoch_cap) × (m'.total_minted ≡ m.total_minted + issued xs)
unfolding accrue_all
accrue_all-le-cap m m' e [] w h = ground arith
accrue_all-le-cap m m' e ((amount, now) ∷ xs) w h =
    let (m₁, e₁, rest) = >>=-eq-ok (accrue m amount now) (λ q. accrue_all q xs) h in
    let k = accrue-Accrued m amount now m₁ e₁ in
    let now_e : k.epoch ≡ e = same_epoch m now k.epoch e k.at w.0 in
    let ih =
      accrue_all-used m m₁ m' e xs (λ later. accrue-epoch_at m m₁ amount now later k)
        (ground (arith, k.frame, now_e)) (ground (arith, k.frame, k.capped)) w.1 rest in
    ground (arith, k.frame, k.counted, ih)
