-- ===== src/Effects/Total.antt =====
-- Actions that return whatever the world answers, and what holds of all that an action returns.
use agent_identity_demos.Prelude.{◌≡◌, refl, ◌∙◌, sym, ap, subst, Bool, true, false, if◌then◌else◌}
use agent_identity_demos.Effects.{
  Exn, Result, ok, err, World, History, M, continue, rescue, pure, lift, asks, catch, attempt,
  ◌>>=◌,
}
use agent_identity_demos.Effects.Invert.{asks-ok, asks_bind-ok, Returns, bind-ok, pure-ok}

-- What `m` returns, if it does, satisfies `P`.
pub record Holds {ℓ κ} {A : Type ℓ} (P : A → Type κ) (m : M A) (w : World) : Type (ℓ ⊔ κ) where
  pub holds : {h h' : History} {a : A} → Returns m w h a h' → P a

-- `m` always returns, and what it returns satisfies `P`.
pub record Always {ℓ κ} {A : Type ℓ} (P : A → Type κ) (m : M A) (w : World) : Type (ℓ ⊔ κ) where
  pub always : (h : History) → (a : A) × (h' : History) × (m w h ≡ (ok a, h')) × P a

module _ {ℓ κ} {A : Type ℓ} {P : A → Type κ} {w : World} where
  pub Holds-pure : (a : A) → P a → Holds P (pure a) w
  Holds-pure a p = record { holds = λ q. subst P (sym (pure-ok _ _ _ _ _ q)) p }

  pub Holds-asks : (f : World → A) → P (f w) → Holds P (asks f) w
  Holds-asks f p = record { holds = λ q. subst P (sym (asks-ok _ _ _ _ _ q)) p }

  pub Holds-bind {μ} :
      {B : Type μ} (m : M B) (k : B → M A) → ((b : B) → Holds P (k b) w) → Holds P (m >>= k) w
  Holds-bind m k next = record {
    holds = λ q. let (b, h1, _, r) = bind-ok _ _ q in (next b).holds r;
  }

  pub Holds-asks_bind {μ} :
      {B : Type μ} (f : World → B) (k : B → M A) → Holds P (k (f w)) w → Holds P (asks f >>= k) w
  Holds-asks_bind f k next = record { holds = λ q. next.holds (asks_bind-ok _ _ q) }

  pub Holds-if : (b : Bool) (m n : M A) → Holds P m w → Holds P n w → Holds P (if b then m else n) w
  Holds-if true m n p q = p
  Holds-if false m n p q = q

  pub Always-pure : (a : A) → P a → Always P (pure a) w
  unfolding pure
  Always-pure a p = record { always = λ h. (a, h, refl, p) }

  pub Always-asks : (f : World → A) → P (f w) → Always P (asks f) w
  unfolding asks
  Always-asks f p = record { always = λ h. (f w, h, refl, p) }

  pub Always-lift : (r : Result A) (a : A) → r ≡ ok a → P a → Always P (lift r) w
  unfolding lift
  Always-lift r a q p = record { always = λ h. (a, h, ap (λ x. (x, h)) q, p) }

  pub Always-if :
      (b : Bool) (m n : M A) → Always P m w → Always P n w → Always P (if b then m else n) w
  Always-if true m n p q = p
  Always-if false m n p q = q

  rescue-Always :
      (x : Result A × History) (k : Exn → M A)
      → ((a : A) → x.0 ≡ ok a → P a)
      → ((e : Exn) → Always P (k e) w)
      → (a : A) × (h' : History) × (rescue x k w ≡ (ok a, h')) × P a
  rescue-Always (ok a, h) k good next = (a, h, refl, good a refl)
  rescue-Always (err e, h) k good next = (next e).always h

  -- What is tried may fail, since the handler returns.
  pub Always-catch :
      (m : M A) (k : Exn → M A)
      → Holds P m w
      → ((e : Exn) → Always P (k e) w)
      → Always P (catch m k) w
  unfolding catch
  Always-catch m k first next = record {
    always = λ h.
        rescue-Always (m w h) k
          (λ a p. first.holds (record { returns = ap (λ r. (r, (m w h).1)) p })) next;
  }

module _ {ℓ κ μ ν} {A : Type ℓ} {B : Type μ} {P : A → Type κ} {Q : B → Type ν} {w : World} where
  pub Always-bind :
      (m : M B) (k : B → M A)
      → Always Q m w
      → ((b : B) → Q b → Always P (k b) w)
      → Always P (m >>= k) w
  unfolding ◌>>=◌
  Always-bind m k first next = record {
    always = λ h.
        let (b, h1, p, q) = first.always h in
        let (a, h2, r, s) = (next b q).always h1 in (a, h2, ap (λ x. continue x k w) p ∙ r, s);
  }

-- The outcome of an attempt is always there.
pub Always-attempt {ℓ} : {A : Type ℓ} (m : M A) (w : World) → Always (λ r. Unit {0}) (attempt m) w
unfolding attempt
Always-attempt m w = record { always = λ h. ((m w h).0, (m w h).1, refl, tt) }
