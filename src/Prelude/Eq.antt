-- ===== src/Prelude/Eq.antt =====
-- Boolean equality as an interface: operator== of a key or of a stream element.
use pipefabric.Prelude.{
  ◌≡◌, refl, sym, ◌↔◌, ◌⊎◌, inl, inr, Bool, true, false, Bool-cases, ℕ, arith, ==_iff,
}
use pipefabric.Prelude

pub record Eq {ℓ} (A : Type ℓ) : Type ℓ where
  pub beq : A → A → Bool
  pub beq_iff : (a b : A) → (beq a b ≡ true) ↔ (a ≡ b)

module _ {ℓ} {A : Type ℓ} ⦃e : Eq A⦄ where
  pub beq_refl : (a : A) → e.beq a a ≡ true
  beq_refl a = (e.beq_iff a a).1 refl

  pub beq_comm : (a b : A) → e.beq a b ≡ e.beq b a
  beq_comm a b = ground (arith, e.beq_iff a b, e.beq_iff b a, sym_of a b)
    where
      sym_of : (x y : A) → x ≡ y → y ≡ x
      sym_of x y p = sym p

instance abbrev pub nat_eq : Eq ℕ
nat_eq = record { beq = Prelude.◌==◌; beq_iff = ==_iff }
