-- ===== src/Client.antt =====
-- The Kubernetes API as the sources call it through a controller-runtime client: a parameter. A
-- call that writes gives the new state of the cluster, or fails and leaves it as it was.
use ingress_operator.Prelude.{◌≡◌, ◌&&◌, ◌==◌, if◌then◌else◌, Option, none, some, List, []}
use ingress_operator.Text.{Text, text_eq}

-- The errors that the sources tell apart with apierrors and meta.IsNoMatchError.
pub data OtherError : Type 0 where
  conflict already_exists no_match : OtherError
  described : Text → OtherError

pub data ApiError : Type 0 where
  not_found : ApiError
  other : OtherError → ApiError

-- A failure that fmt.Errorf wraps with `%w`, or passes on.
pub data Failure : Type 0 where
  plain : ApiError → Failure
  wrapped : Text → ApiError → Failure

pub data Answer {ℓ} (A : Type ℓ) : Type ℓ where
  ok : A → Answer A
  err : ApiError → Answer A

-- Reading and writing objects of one kind, by namespace and name.
pub record Client (State : Type 0) (Object : Type 0) : Type 0 where
  pub get_object : State → Text → Text → Answer Object
  pub create_object : State → Object → Answer State
  pub update_object : State → Object → Answer State
  pub delete_object : State → Object → Answer State

-- What a read finds, and what a successful write means for the reads after it. Objects are told
-- apart by their namespace and their name.
pub record IsLawful {State Object : Type 0} (namespace_of name_of : Object → Text)
    (c : Client State Object) : Type 0 where
  pub get-names :
      (s : State) (o : Object) (namespace name : Text)
      → c.get_object s namespace name ≡ ok o
      → (namespace_of o ≡ namespace) × (name_of o ≡ name)
  pub get-create :
      (s s' : State) (o : Object) (namespace name : Text)
      → c.create_object s o ≡ ok s'
      → c.get_object s' namespace name ≡ (
          if namespace_of o == namespace && name_of o == name
          then ok o
          else c.get_object s namespace name)
  pub get-update :
      (s s' : State) (o : Object) (namespace name : Text)
      → c.update_object s o ≡ ok s'
      → c.get_object s' namespace name ≡ (
          if namespace_of o == namespace && name_of o == name
          then ok o
          else c.get_object s namespace name)
  pub get-delete :
      (s s' : State) (o : Object) (namespace name : Text)
      → c.delete_object s o ≡ ok s'
      → c.get_object s' namespace name ≡ (
          if namespace_of o == namespace && name_of o == name
          then err not_found
          else c.get_object s namespace name)
  pub delete-not_found :
      (s : State) (o : Object)
      → c.delete_object s o ≡ err not_found
      → c.get_object s (namespace_of o) (name_of o) ≡ err not_found

-- What a call leaves: the cluster, the operations handed to recordMetric, and the error.
pub record Outcome (State : Type 0) : Type 0 where
  pub state : State
  pub metrics : List (Text × Text × Text)
  pub failure : Option Failure

module _ {State : Type 0} where
  unfoldable pub done : State → Outcome State
  done s = record { state = s; metrics = []; failure = none }

  unfoldable pub fails : State → Failure → Outcome State
  fails s f = record { state = s; metrics = []; failure = some f }

  -- The end of a write: the error is wrapped, or the metric is recorded if there is a callback.
  unfoldable pub written : State → Text → List (Text × Text × Text) → Answer State → Outcome State
  written s message metrics (ok s') = record { state = s'; metrics = metrics; failure = none }
  written s message metrics (err e) = fails s (wrapped message e)
