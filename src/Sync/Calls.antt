-- ===== src/Sync/Calls.antt =====
-- A stateful call that can fail: the state comes back after a failure too, since what was written
-- stays written. (crates/sync/src/lib.rs)
use superspace.Base.{Option, none, some, ◌≡◌, inl, inr, arith}
use superspace.Base.Result.{Result, ok, err, Result-cases}
use superspace.Base.Text.{Text}
use superspace.Storage.Entry.{ClipboardKind}
use superspace.Sync.Codec.{SyncError}

abbrev pub Action : Type 0 → Type 0 → Type 0
Action S A = S → S × Result SyncError A

infixl 5 ◌>>=◌ ◌>>◌
abbrev pub ◌>>=◌ : {S A B : Type 0} → Action S A → (A → Action S B) → Action S B
◌>>=◌ m f s = let (s', r) = m s in elim r [ ok a ↦ f a s' | err e ↦ (s', err e) ]

abbrev pub ◌>>◌ : {S A B : Type 0} → Action S A → Action S B → Action S B
m >> k = m >>= λ _. k

abbrev pub pure : {S A : Type 0} → A → Action S A
pure a s = (s, ok a)

abbrev pub pure_result : {S A : Type 0} → Result SyncError A → Action S A
pure_result r s = (s, r)

abbrev pub fail : {S A : Type 0} → SyncError → Action S A
fail e s = (s, err e)

abbrev pub get : {S : Type 0} → Action S S
get s = (s, ok s)

-- `?` with a conversion of the error.
abbrev pub lift : {E A : Type 0} → (E → SyncError) → Result E A → Result SyncError A
lift f (ok a) = ok a
lift f (err e) = err (f e)

abbrev pub forget : {A : Type 0} → Result SyncError A → Result SyncError (Unit {0})
forget (ok a) = ok tt
forget (err e) = err e

abbrev pub or_fail : {A : Type 0} → Option A → SyncError → Result SyncError A
or_fail none e = err e
or_fail (some a) e = ok a

-- What `persist` keeps of a value.
pub record Stored : Type 0 where
  pub kind : ClipboardKind
  pub text : Option Text
  pub blob_hash : Option Text

-- A chain that succeeds, taken apart at its first call.
pub >>=-eq-ok :
    {S A B : Type 0} (m : Action S A) (f : A → Action S B) (s s' : S) (b : B)
    → (m >>= f) s ≡ (s', ok b)
    → (a : A) × (t : S) × (m s ≡ (t, ok a)) × (f a t ≡ (s', ok b))
>>=-eq-ok m f s s' b h = elim (Result-cases (m s).1) [
  | inl (a, e) ↦ (a, (m s).0, ground (arith, e), ground (arith, e))
  | inr (x, e) ↦ absurd (ground (arith, e))
]
