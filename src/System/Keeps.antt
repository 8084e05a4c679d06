-- ===== src/System/Keeps.antt =====
-- Properties of the state that every step of a function keeps.
use caozuokeshe.Base.{
  ℕ, ◌≤◌, ◌≡◌, inl, inr, Bool, true, false, Option, Option-cases, none, some, List, Bool-cases,
  if◌then◌else◌, get_or, set, replicate,
}
use caozuokeshe.Errors.{FsError, Result, Result-cases, ok, err, io}
use caozuokeshe.Layout.{Superblock}
use caozuokeshe.Bitmap.{Bitmap}
use caozuokeshe.Disk.Host.{Host}
use caozuokeshe.Disk.Block.{Disk, DiskStatus, success, called, read_block, write_block}
use caozuokeshe.Fs.State.{
  FsState, FileHandle, zero_handle, max_open_files, M, pure, fail, ◌>>=◌, ◌>>◌, ignore, attempt,
  get, modify, current_time, read_disk, write_disk,
}

-- What may happen to the table of open files: it is emptied, a handle is opened, or a handle is replaced
-- by one that is not referred to more often.
pub data Touches : List FileHandle → List FileHandle → Type 0 where
  emptied : {hs : List FileHandle} → Touches hs (replicate max_open_files zero_handle)
  opened :
      {hs : List FileHandle} (fd : ℕ) (h : FileHandle)
      → h.reference_count ≡ 1
      → Touches hs (set hs fd h)
  replaced :
      {hs : List FileHandle} (fd : ℕ) (h : FileHandle)
      → h.reference_count ≤ (get_or hs fd zero_handle).reference_count
      → Touches hs (set hs fd h)

-- A property that does not depend on the superblock, the bitmaps and the disk, and outlives what may
-- happen to the open files.
pub record IsStable (I : FsState → Type 0) : Type 0 where
  pub storage :
      (s : FsState) (sb : Superblock) (ib bb : Bitmap) (d : Disk)
      → I s
      → I (record s { superblock = sb; inode_bitmap = ib; block_bitmap = bb; disk = d })
  pub handles :
      (s : FsState) (hs : List FileHandle)
      → Touches s.open_files hs
      → I s
      → I (record s { open_files = hs })

-- A function that keeps a property, whatever it returns.
pub record Keeps (I : FsState → Type 0) {A : Type 0} (m : M A) : Type 0 where
  pub keeps : (s : FsState) → I s → I (m s).1

module _ {I : FsState → Type 0} where
  pub pure-Keeps : {A : Type 0} {a : A} → Keeps I (pure a)
  pure-Keeps = record { keeps = λ s i. i }

  pub fail-Keeps : {A : Type 0} {e : FsError} → Keeps I (fail {A = A} e)
  fail-Keeps = record { keeps = λ s i. i }

  pub get-Keeps : Keeps I get
  get-Keeps = record { keeps = λ s i. i }

  pub ignore-Keeps : {A : Type 0} {m : M A} → Keeps I m → Keeps I (ignore m)
  ignore-Keeps k = record { keeps = k.keeps }

  pub attempt-Keeps : {A : Type 0} {m : M A} → Keeps I m → Keeps I (attempt m)
  attempt-Keeps k = record { keeps = k.keeps }

  pub bind-Keeps :
      {A B : Type 0} {m : M A} {f : A → M B}
      → Keeps I m
      → ((a : A) → Keeps I (f a))
      → Keeps I (m >>= f)
  bind-Keeps {A} {B} {m} {f} first rest = record {
    keeps = λ s i. elim (Result-cases (m s).0) [
      | inl (a, e) ↦ rw (e, ◌>>=◌) ((rest a).keeps (m s).1 (first.keeps s i))
      | inr (x, e) ↦ rw (e, ◌>>=◌) (first.keeps s i)
    ];
  }

  pub then-Keeps :
      {B : Type 0} {m : M (Unit {0})} {k : M B} → Keeps I m → Keeps I k → Keeps I (m >> k)
  then-Keeps first rest = bind-Keeps first (λ _. rest)

  -- A call whose result the caller looks at.
  pub handle-Keeps :
      {A B : Type 0} {m : M A} {good : A → M B} {bad : FsError → M B}
      → Keeps I m
      → ((a : A) → Keeps I (good a))
      → ((e : FsError) → Keeps I (bad e))
      → Keeps I (attempt m >>= λ r. elim r [ ok a ↦ good a | err e ↦ bad e ])
  handle-Keeps {A} {B} {m} {good} {bad} first after_good after_bad = record {
    keeps = λ s i. elim (Result-cases (m s).0) [
      | inl (a, e) ↦ rw e ((after_good a).keeps (m s).1 (first.keeps s i))
      | inr (x, e) ↦ rw e ((after_bad x).keeps (m s).1 (first.keeps s i))
    ];
  }

  pub modify-Keeps : (f : FsState → FsState) → ((s : FsState) → I s → I (f s)) → Keeps I (modify f)
  modify-Keeps f k = record { keeps = k }

  pub if-Keeps :
      {A : Type 0} (b : Bool) {m n : M A} → Keeps I m → Keeps I n → Keeps I (if b then m else n)
  if-Keeps b km kn = elim (Bool-cases b) [ inl e ↦ rw e km | inr e ↦ rw e kn ]

  pub result-Keeps :
      {A B : Type 0} (r : Result A) {good : A → M B} {bad : FsError → M B}
      → ((a : A) → Keeps I (good a))
      → ((e : FsError) → Keeps I (bad e))
      → Keeps I (elim r [ ok a ↦ good a | err e ↦ bad e ])
  result-Keeps r after_good after_bad = elim (Result-cases r) [
    | inl (a, e) ↦ rw e (after_good a)
    | inr (x, e) ↦ rw e (after_bad x)
  ]

  pub bool-Keeps :
      {A : Type 0} (b : Bool) {m n : M A}
      → Keeps I m
      → Keeps I n
      → Keeps I (elim b [ true ↦ m | false ↦ n ])
  bool-Keeps true km kn = km
  bool-Keeps false km kn = kn

  pub option-Keeps :
      {A B : Type 0} (o : Option A) {n : M B} {f : A → M B}
      → Keeps I n
      → ((a : A) → Keeps I (f a))
      → Keeps I (elim o [ none ↦ n | some a ↦ f a ])
  option-Keeps o kn kf = elim (Option-cases o) [ inl e ↦ rw e kn | inr (a, e) ↦ rw e (kf a) ]

module _ {I : FsState → Type 0} (st : IsStable I) where
  pub storage-Keeps : {d : Disk} {s : FsState} → I s → I (record s { disk = d })
  storage-Keeps {d} {s} i = st.storage s s.superblock s.inode_bitmap s.block_bitmap d i

  pub current_time-Keeps : (host : Host) → Keeps I (current_time host)
  current_time-Keeps host = record { keeps = λ s i. storage-Keeps {d = called s.disk} i }

  pub read_disk-Keeps : (host : Host) (b : ℕ) → Keeps I (read_disk host b)
  unfolding read_disk
  read_disk-Keeps host b = record {
    keeps = λ s i.
        let kept = storage-Keeps {d = (read_block host s.disk b).2} i in
        elim (read_block host s.disk b).0 as (λ status. I (outcome s status).1) [
          | success ↦ kept
          | _ ↦ kept
        ];
  }
    where
      outcome : FsState → DiskStatus → Result (List ℕ) × FsState
      outcome s status = elim status [
        | success ↦
            (ok (read_block host s.disk b).1, record s { disk = (read_block host s.disk b).2 })
        | _ ↦ (err io, record s { disk = (read_block host s.disk b).2 })
      ]

  pub write_disk-Keeps : (host : Host) (b : ℕ) (bytes : List ℕ) → Keeps I (write_disk host b bytes)
  unfolding write_disk
  write_disk-Keeps host b bytes = record {
    keeps = λ s i.
        let kept = storage-Keeps {d = (write_block host s.disk b (some bytes)).1} i in
        elim (write_block host s.disk b (some bytes)).0 as (λ status. I (outcome s status).1) [
          | success ↦ kept
          | _ ↦ kept
        ];
  }
    where
      outcome : FsState → DiskStatus → Result (Unit {0}) × FsState
      outcome s status = elim status [
        | success ↦ (ok tt, record s { disk = (write_block host s.disk b (some bytes)).1 })
        | _ ↦ (err io, record s { disk = (write_block host s.disk b (some bytes)).1 })
      ]
