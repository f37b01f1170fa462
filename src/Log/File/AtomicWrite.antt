-- ===== src/Log/File/AtomicWrite.antt =====
-- `atomic_write_json`: under any faults the file has its old content or the new one, whole.
use bf_multiraft.Base.{◌≡◌, refl, inl, inr, none, some, List, [], ◌∷◌, Bytes, Option-cases}
use bf_multiraft.Io.{IoResult, IoError, os, invalid_data, Outcome, done, fails, Env, ok, err}
use bf_multiraft.Codec.{Codec}
use bf_multiraft.Log.File.{JsonFile, hard_state_json, log_json, Disk, content, atomic_write_json}

abbrev pub other_file : JsonFile → JsonFile
other_file hard_state_json = log_json
other_file log_json = hard_state_json

-- How an attempt to write `value` to a file may end, with the disk before and after.
pub data Ended {A : Type 0} (codec : Codec A) (f : JsonFile) (value : A) (d d' : Disk)
    (r : IoResult (Unit {0})) : Type 0 where
  written :
      (b : Bytes)
      → r ≡ ok tt
      → codec.to_vec value ≡ some b
      → content f d' ≡ some b
      → content (other_file f) d' ≡ content (other_file f) d
      → Ended codec f value d d' r
  kept :
      (e : IoError)
      → r ≡ err e
      → content f d' ≡ content f d
      → content (other_file f) d' ≡ content (other_file f) d
      → Ended codec f value d d' r

module _ {A : Type 0} (codec : Codec A) (value : A) where
  abbrev write_at : JsonFile → Disk → List Outcome → IoResult (Unit {0}) × Env Disk
  write_at f d l = atomic_write_json codec f value (record { disk = d; pending = l })

  abbrev EndedAt : JsonFile → Disk → List Outcome → Type 0
  EndedAt f d l = Ended codec f value d (write_at f d l).1.disk (write_at f d l).0

  encoded-Ended :
      (f : JsonFile) (d : Disk) (l : List Outcome) (b : Bytes)
      → codec.to_vec value ≡ some b
      → EndedAt f d l
  unfolding atomic_write_json
  encoded-Ended hard_state_json d [] b q = rw q (written b refl q refl refl)
  encoded-Ended hard_state_json d (done ∷ []) b q = rw q (written b refl q refl refl)
  encoded-Ended hard_state_json d (done ∷ done ∷ l) b q = rw q (written b refl q refl refl)
  encoded-Ended hard_state_json d (done ∷ fails x ∷ l) b q = rw q (kept os refl refl refl)
  encoded-Ended hard_state_json d (fails none ∷ l) b q = rw q (kept os refl refl refl)
  encoded-Ended hard_state_json d (fails (some x) ∷ l) b q = rw q (kept os refl refl refl)
  encoded-Ended log_json d [] b q = rw q (written b refl q refl refl)
  encoded-Ended log_json d (done ∷ []) b q = rw q (written b refl q refl refl)
  encoded-Ended log_json d (done ∷ done ∷ l) b q = rw q (written b refl q refl refl)
  encoded-Ended log_json d (done ∷ fails x ∷ l) b q = rw q (kept os refl refl refl)
  encoded-Ended log_json d (fails none ∷ l) b q = rw q (kept os refl refl refl)
  encoded-Ended log_json d (fails (some x) ∷ l) b q = rw q (kept os refl refl refl)

  refused-Ended :
      (f : JsonFile) (d : Disk) (l : List Outcome) → codec.to_vec value ≡ none → EndedAt f d l
  unfolding atomic_write_json
  refused-Ended f d l q = rw q (kept invalid_data refl refl refl)

  -- Whatever the faults, the write ends with the new bytes in its file or with the file untouched,
  -- it reports success exactly in the first case, and it never touches the other file.
  pub atomic_write_json-Ended : (f : JsonFile) (d : Disk) (l : List Outcome) → EndedAt f d l
  atomic_write_json-Ended f d l = elim (Option-cases (codec.to_vec value)) [
    | inl q ↦ refused-Ended f d l q
    | inr (b, q) ↦ encoded-Ended f d l b q
  ]
