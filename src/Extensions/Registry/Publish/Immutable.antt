-- ===== src/Extensions/Registry/Publish/Immutable.antt =====
-- What publishing leaves alone (crates/extensions/src/registry.rs).
use superspace.Base.{
  ℕ, ◌≡◌, refl, sym, ap, ◌∙◌, inl, inr, Bool, true, false, not, ◌&&◌, ◌||◌, Option, none, some, [],
  ◌∷◌, ◌++◌, arith, Bool-cases, take,
}
use superspace.Base.Bytes.{Bytes}
use superspace.Base.Result.{ok, err, Result, guard-ok}
use superspace.Base.Text.{Text, text_eq, text_eq→≡, text_eq_refl}
use superspace.Extensions.Package.{Formats}
use superspace.Extensions.Registry.{RegistryRecord, RegistryError, version_conflict, Libraries}
use superspace.Extensions.Registry.Publish.{
  Files, put, Io, temporary_path, give_up, fill, create, compare_content, write_over,
  write_immutable, finish, write_encoded, write_record, write_prepared, Call, publish_package,
  package_file, record_file, prepare, exists,
}

-- Every file that was there is there with its content.
abbrev pub Keeps : Files → Files → Type 0
Keeps files files' =
    (path : Text) (bytes : Bytes) → files path ≡ some bytes → files' path ≡ some bytes

pub Keeps-trans : (f g h : Files) → Keeps f g → Keeps g h → Keeps f h
Keeps-trans f g h k l path bytes e = l path bytes (k path bytes e)

put-Keeps :
    (files : Files) (path : Text) (content : Option Bytes)
    → files path ≡ none
    → Keeps files (put path content files)
put-Keeps files path content absent other bytes e = elim (Bool-cases (text_eq other path)) [
  | inl same ↦ absurd (cc (ap files (text_eq→≡ other path same)))
  | inr diff ↦ ground (arith, diff, e)
]

-- Two writes to one path are the last one.
put-put-Keeps :
    (files : Files) (path : Text) (a b : Option Bytes)
    → files path ≡ none
    → Keeps files (put path b (put path a files))
put-put-Keeps files path a b absent other bytes e = elim (Bool-cases (text_eq other path)) [
  | inl same ↦ absurd (cc (ap files (text_eq→≡ other path same)))
  | inr diff ↦ ground (arith, diff, e)
]

give_up-Keeps :
    (env : Io) (temporary : Text) (written : Bytes) (files : Files)
    → files temporary ≡ none
    → Keeps files (give_up env temporary (put temporary (some written) files)).0
unfolding give_up
give_up-Keeps env temporary written files absent = elim (Bool-cases env.remove_file) [
  | inl e ↦ rw e (put-put-Keeps files temporary (some written) none absent)
  | inr e ↦ rw e (put-Keeps files temporary (some written) absent)
]

put_both-Keeps :
    (files : Files) (temporary path : Text) (a b : Option Bytes)
    → files temporary ≡ none
    → files path ≡ none
    → Keeps files (put path b (put temporary none (put temporary a files)))
put_both-Keeps files temporary path a b absent absent' other bytes e =
    elim (Bool-cases (text_eq other temporary)) [
      | inl same ↦ absurd (cc (ap files (text_eq→≡ other temporary same)))
      | inr diff ↦ elim (Bool-cases (text_eq other path)) [
        | inl same ↦ absurd (cc (ap files (text_eq→≡ other path same)))
        | inr diff' ↦ ground (arith, diff, diff', e)
      ]
    ]

fill-Keeps :
    (env : Io) (write_all : Option ℕ) (temporary path : Text) (bytes : Bytes) (files : Files)
    → files temporary ≡ none
    → files path ≡ none
    → Keeps files (fill env write_all temporary path bytes files).0
unfolding fill
fill-Keeps env (some n) temporary path bytes files absent absent' =
    give_up-Keeps env temporary (take n bytes) files absent
fill-Keeps env none temporary path bytes files absent absent' =
    elim (Bool-cases (env.sync_all && env.rename)) [
      | inl e ↦ rw e (put_both-Keeps files temporary path (some bytes) (some bytes) absent absent')
      | inr e ↦ rw e (give_up-Keeps env temporary bytes files absent)
    ]

absent_of : (found : Option Bytes) (a b : Bool) → a || (exists found || b) ≡ false → found ≡ none
unfolding exists
absent_of none a b h = refl
absent_of (some bytes) true b h = cc
absent_of (some bytes) false b h = cc

fill-ok :
    (env : Io) (write_all : Option ℕ) (temporary path : Text) (bytes : Bytes) (files files' : Files)
    → fill env write_all temporary path bytes files ≡ (files', ok tt)
    → files' path ≡ some bytes
unfolding fill give_up
fill-ok env (some n) temporary path bytes files files' h = cc
fill-ok env none temporary path bytes files files' h =
    elim (Bool-cases (env.sync_all && env.rename)) [
      | inl e ↦ sym (ap (λ c. c.0 path) (rw e at h)) ∙ ground (arith, text_eq_refl path)
      | inr e ↦ absurd (cc (ap (λ c. c.1) (rw e at h)))
    ]

create-ok :
    (env : Io) (temporary path : Text) (bytes : Bytes) (files files' : Files)
    → create env temporary path bytes files ≡ (files', ok tt)
    → files' path ≡ some bytes
unfolding create
create-ok env temporary path bytes files files' h =
    elim (Bool-cases (not env.create_dir_all || (exists (files temporary) || not env.create_new))) [
      | inl e ↦ absurd (cc (ap (λ c. c.1) (rw e at h)))
      | inr e ↦ fill-ok env env.write_all temporary path bytes files files' (rw e at h)
    ]

create-Keeps :
    (env : Io) (temporary path : Text) (bytes : Bytes) (files : Files)
    → files path ≡ none
    → Keeps files (create env temporary path bytes files).0
unfolding create exists
create-Keeps env temporary path bytes files absent =
    elim (Bool-cases (not env.create_dir_all || (exists (files temporary) || not env.create_new))) [
      | inl e ↦ rw e (λ other found h. h)
      | inr e ↦ rw e (
          fill-Keeps env env.write_all temporary path bytes files
            (absent_of (files temporary) _ _ e) absent)
    ]

write_over-Keeps :
    (found : Option Bytes) (env : Io) (temporary path : Text) (bytes : Bytes) (files : Files)
    → files path ≡ found
    → Keeps files (write_over found env temporary path bytes files).0
unfolding write_over
write_over-Keeps none env temporary path bytes files h =
    create-Keeps env temporary path bytes files h
write_over-Keeps (some found) env temporary path bytes files h = λ other content e. e

pub write_immutable-Keeps :
    (env : Io) (pid path : Text) (bytes : Bytes) (files : Files)
    → Keeps files (write_immutable env pid path bytes files).0
unfolding write_immutable
write_immutable-Keeps env pid path bytes files =
    write_over-Keeps (files path) env (temporary_path pid path) path bytes files refl

write_over-ok :
    (found : Option Bytes) (env : Io) (temporary path : Text) (bytes : Bytes) (files files' : Files)
    → files path ≡ found
    → write_over found env temporary path bytes files ≡ (files', ok tt)
    → files' path ≡ some bytes
unfolding write_over compare_content
write_over-ok none env temporary path bytes files files' e h =
    create-ok env temporary path bytes files files' h
write_over-ok (some found) env temporary path bytes files files' e h =
    let same = guard-ok (text_eq found bytes) version_conflict tt (ap (λ c. c.1) h) in
    sym (ap (λ c. c.0 path) h) ∙ e ∙ ap some (text_eq→≡ found bytes same)

-- A write that succeeds leaves the bytes at the path.
pub write_immutable-ok :
    (env : Io) (pid path : Text) (bytes : Bytes) (files files' : Files)
    → write_immutable env pid path bytes files ≡ (files', ok tt)
    → files' path ≡ some bytes
unfolding write_immutable
write_immutable-ok env pid path bytes files files' h =
    write_over-ok (files path) env (temporary_path pid path) path bytes files files' refl h

module _ {Version : Type 0} (formats : Formats Version) (libraries : Libraries Version)
    (to_vec_pretty : RegistryRecord Version → Option Bytes) where
  finish-Keeps :
      (files : Files) (r : RegistryRecord Version) (call : Call)
      → Keeps files call.0
      → Keeps files (finish formats libraries to_vec_pretty r call).0
  finish-Keeps files r (files', ok t) h = h
  finish-Keeps files r (files', err e) h = h

  write_encoded-Keeps :
      (encoded : Option Bytes) (env : Io) (pid root : Text) (r : RegistryRecord Version)
      (files : Files)
      → Keeps files (write_encoded formats libraries to_vec_pretty encoded env pid root r files).0
  unfolding write_encoded
  write_encoded-Keeps none env pid root r files = λ path bytes e. e
  write_encoded-Keeps (some bytes) env pid root r files =
      let path = record_file formats libraries to_vec_pretty root r in
      finish-Keeps files r (write_immutable env pid path (bytes ++ (b'\n' ∷ [])) files)
        (write_immutable-Keeps env pid path (bytes ++ (b'\n' ∷ [])) files)

  write_record-Keeps :
      (env : Io) (pid root : Text) (r : RegistryRecord Version) (files : Files) (call : Call)
      → Keeps files call.0
      → Keeps files (write_record formats libraries to_vec_pretty env pid root r call).0
  unfolding write_record
  write_record-Keeps env pid root r files (files', err e) h = h
  write_record-Keeps env pid root r files (files', ok t) h =
      Keeps-trans files files' _ h (write_encoded-Keeps (to_vec_pretty r) env pid root r files')

  write_prepared-Keeps :
      (prepared : Result RegistryError (Bytes × RegistryRecord Version)) (env env' : Io)
      (pid root : Text) (files : Files)
      → Keeps files
          (write_prepared formats libraries to_vec_pretty prepared env env' pid root files).0
  unfolding write_prepared
  write_prepared-Keeps (err e) env env' pid root files = λ path bytes e. e
  write_prepared-Keeps (ok (canonical, r)) env env' pid root files =
      let path = package_file formats libraries to_vec_pretty root r in
      write_record-Keeps env' pid root r files (write_immutable env pid path canonical files)
        (write_immutable-Keeps env pid path canonical files)

  -- A publication leaves every file that was there as it was, whatever it ends with.
  pub publish_package-Keeps :
      (env env' : Io) (pid root : Text) (identity : libraries.SigningKey) (bytes : Bytes)
      (files : Files)
      → Keeps files
          (publish_package formats libraries to_vec_pretty env env' pid root identity bytes files).0
  unfolding publish_package
  publish_package-Keeps env env' pid root identity bytes files =
      write_prepared-Keeps (prepare formats libraries to_vec_pretty identity bytes) env env' pid
        root files
