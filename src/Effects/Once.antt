-- ===== src/Effects/Once.antt =====
-- Actions whose one event, if they have one, is known.
use agent_identity_demos.Prelude.{String, ◌≡◌, refl, sym, subst, ◌∷◌, ◌⊎◌, inl, inr}
use agent_identity_demos.Effects.{
  Result, ok, err, Event, fetched_key, World, History, M, continue, ◌>>=◌, signing_key,
}
use agent_identity_demos.Effects.Quiet.{Quiet}

-- The events are those before, or `e` after them.
abbrev pub AtMost : Event → History → History → Type 0
AtMost e h h' = (h' ≡ h) ⊎ (h' ≡ e ∷ h)

pub record Once {ℓ} {A : Type ℓ} (e : Event) (m : M A) (w : World) : Type ℓ where
  pub once : (h : History) → AtMost e h (m w h).1

module _ {w : World} where
  pub Once-signing_key :
      (url token : String) → Once (fetched_key url token) (signing_key url token) w
  unfolding signing_key
  Once-signing_key url token = record { once = λ h. inr refl }

module _ {ℓ κ} {A : Type ℓ} {B : Type κ} {w : World} where
  later-Once :
      (x : Result A × History) (k : A → M B) → ((a : A) → Quiet (k a) w) → (continue x k w).1 ≡ x.1
  later-Once (ok a, h1) k next = (next a).quiet h1
  later-Once (err x, h1) k next = refl

module _ {ℓ κ} {A : Type ℓ} {B : Type κ} {w : World} {e : Event} where
  first-Once :
      (x : Result A × History) (h : History) (k : A → M B)
      → x.1 ≡ h
      → ((a : A) → Once e (k a) w)
      → AtMost e h (continue x k w).1
  first-Once (ok a, h1) h k same next = subst (λ g. AtMost e g (k a w h1).1) same ((next a).once h1)
  first-Once (err x, h1) h k same next = inl same

  -- The event is not in the first part.
  pub Once-later :
      (m : M A) (k : A → M B) → Quiet m w → ((a : A) → Once e (k a) w) → Once e (m >>= k) w
  unfolding ◌>>=◌
  Once-later m k first next = record { once = λ h. first-Once (m w h) h k (first.quiet h) next }

  -- The event is in the first part.
  pub Once-first :
      (m : M A) (k : A → M B) → Once e m w → ((a : A) → Quiet (k a) w) → Once e (m >>= k) w
  unfolding ◌>>=◌
  Once-first m k first next = record {
    once = λ h. subst (AtMost e h) (sym (later-Once (m w h) k next)) (first.once h);
  }

pub ruleset once_rules = (Once-signing_key, Once-later, Once-first)
