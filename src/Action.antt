-- ===== src/Action.antt =====
-- Code that changes globals, as functions from the state to a result and a new state, written in `do`
-- blocks; and a rule for each way to build one, to carry an invariant through a whole function.
use framework_uifw_voice_tts.Prelude.{Bool, true, false, Option, none, some, if◌then◌else◌}

abbrev pub Action : Type 0 → Type 0 → Type 0
Action S A = S → A × S

module _ {S A : Type 0} where
  unfoldable pub pure : A → Action S A
  pure a s = (a, s)

  unfoldable pub gets : (S → A) → Action S A
  gets f s = (f s, s)

module _ {S : Type 0} where
  unfoldable pub modify : (S → S) → Action S (Unit {0})
  modify f s = (tt, f s)

module _ {S A B : Type 0} where
  infixl 10 ◌>>=◌ ◌>>◌
  unfoldable pub ◌>>=◌ : Action S A → (A → Action S B) → Action S B
  unfolding pure gets modify
  ◌>>=◌ m f s = f (m s).0 (m s).1

  abbrev pub ◌>>◌ : Action S A → Action S B → Action S B
  m >> n = m >>= λ _. n

-- `if (NULL == p) … else …`
abbrev pub case_option {ℓ κ} : {A : Type ℓ} {B : Type κ} → Option A → B → (A → B) → B
case_option none b f = b
case_option (some a) b f = f a

-- From a state with `P`, `m` comes to a state with `Q`; an invariant is kept where the two are one.
pub record Leads {S A : Type 0} (P Q : S → Type 0) (m : Action S A) : Type 0 where
  pub at : (s : S) → P s → Q (m s).1

abbrev pub Keeps : {S A : Type 0} → (S → Type 0) → Action S A → Type 0
Keeps P m = Leads P P m

module _ {S A : Type 0} {P : S → Type 0} where
  pub Keeps-pure : (a : A) → Keeps P (pure a)
  unfolding pure
  Keeps-pure a = record { at = λ s h. h }

  pub Keeps-gets : (f : S → A) → Keeps P (gets f)
  unfolding gets
  Keeps-gets f = record { at = λ s h. h }

module _ {S A : Type 0} {P Q : S → Type 0} where
  pub Leads-if :
      (b : Bool) (m n : Action S A) → Leads P Q m → Leads P Q n → Leads P Q (if b then m else n)
  Leads-if true m n km kn = km
  Leads-if false m n km kn = kn

  pub Leads-case_option :
      {B : Type 0} (o : Option B) (m : Action S A) (f : B → Action S A)
      → Leads P Q m
      → ((b : B) → Leads P Q (f b))
      → Leads P Q (case_option o m f)
  Leads-case_option none m f km kf = km
  Leads-case_option (some b) m f km kf = kf b

module _ {S A B : Type 0} {P R Q : S → Type 0} where
  pub Leads-bind :
      (m : Action S A) (f : A → Action S B)
      → Leads P R m
      → ((a : A) → Leads R Q (f a))
      → Leads P Q (m >>= f)
  unfolding ◌>>=◌
  Leads-bind m f km kf = record { at = λ s h. (kf (m s).0).at (m s).1 (km.at s h) }

module _ {S A B : Type 0} {P : S → Type 0} where
  pub Keeps-bind :
      (m : Action S A) (f : A → Action S B)
      → Keeps P m
      → ((a : A) → Keeps P (f a))
      → Keeps P (m >>= f)
  Keeps-bind m f km kf = Leads-bind m f km kf

pub ruleset keeps_rules = (Keeps-pure, Keeps-gets, Leads-if, Leads-case_option, Keeps-bind)
