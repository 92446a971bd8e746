-- ===== src/Files/Exclusive.antt =====
-- `WriteCanonicalExclusive` of internal/rpf/verify.go.
use runtime_provenance_firew.Base.{
  String, ◌≡◌, ◌≢◌, ◌⊎◌, refl, sym, ◌∙◌, Bool, false, not, ◌||◌, none, some, [], ◌∷◌, ◌++◌, arith,
  string_eq, Result, ok, err, Error, write_failed, true, Bool-cases, inl, inr,
}
use runtime_provenance_firew.Json.{Value}
use runtime_provenance_firew.Platform.{Platform, Bytes}
use runtime_provenance_firew.Parse.{canonical}
use runtime_provenance_firew.Files.{
  Files, Disk, file_at, remove_file, put_file, clean_up, is_taken, write_exclusive,
  write_canonical_exclusive,
}

file_at-remove_file : (path : String) (files : Files) → file_at path (remove_file path files) ≡ none
unfolding file_at remove_file
file_at-remove_file path [] = refl
file_at-remove_file path ((other, content) ∷ files) = ground (arith, file_at-remove_file path files)

pub file_at-remove_file-other :
    (path other : String) (files : Files)
    → other ≢ path
    → file_at other (remove_file path files) ≡ file_at other files
unfolding file_at remove_file
file_at-remove_file-other path other [] h = refl
file_at-remove_file-other path other ((p, content) ∷ files) h =
    ground (arith, file_at-remove_file-other path other files h)

pub file_at-put_file :
    (path : String) (content : Bytes) (files : Files)
    → file_at path (put_file path content files) ≡ some content
unfolding file_at put_file
file_at-put_file path content files = ground arith

pub file_at-put_file-other :
    (path other : String) (content : Bytes) (files : Files)
    → other ≢ path
    → file_at other (put_file path content files) ≡ file_at other files
unfolding file_at put_file
file_at-put_file-other path other content files h =
    ground (arith, file_at-remove_file-other path other files h)

-- Every path has the content that it had.
abbrev pub Unchanged : Files → Files → Type 0
Unchanged before after = (path : String) → file_at path after ≡ file_at path before

-- Every other path has the content that it had.
abbrev pub UnchangedBut : String → Files → Files → Type 0
UnchangedBut path before after =
    (other : String) → other ≢ path → file_at other after ≡ file_at other before

UnchangedBut-put_file :
    (path : String) (content : Bytes) (before files : Files)
    → UnchangedBut path before files
    → UnchangedBut path before (put_file path content files)
UnchangedBut-put_file path content before files kept other differ =
    file_at-put_file-other path other content files differ ∙ kept other differ

UnchangedBut-clean_up :
    (platform : Platform) (disk : Disk) (path : String) (before files : Files)
    → UnchangedBut path before files
    → UnchangedBut path before (clean_up platform disk path files)
unfolding clean_up
UnchangedBut-clean_up platform disk path before files kept other differ =
    elim (Bool-cases (disk.removes path)) [
      | inl removed ↦
          rw removed (file_at-remove_file-other path other files differ ∙ kept other differ)
      | inr stays ↦ rw stays (kept other differ)
    ]

-- A file that was not there before and can be removed is gone.
clean_up-Unchanged :
    (platform : Platform) (disk : Disk) (path : String) (before files : Files)
    → disk.removes path ≡ true
    → file_at path before ≡ none
    → UnchangedBut path before files
    → Unchanged before (clean_up platform disk path files)
unfolding clean_up
clean_up-Unchanged platform disk path before files removes absent kept other =
    rw removes (elim (string_eq.dec other path) [
      | yes same ↦ rw same (file_at-remove_file path files ∙ sym absent)
      | no differ ↦ file_at-remove_file-other path other files differ ∙ kept other differ
    ])

-- A write that succeeds makes a new file of the value's canonical bytes and a line end. One that fails
-- changes no other file, and none at all if the file that it made can be removed again.
abbrev pub WritesAll : Platform → Disk → String → Value → Files → Files × Result (Unit {0}) → Type 0
WritesAll platform disk path value before (after, err e) =
    UnchangedBut path before after × (Unchanged before after ⊎ (disk.removes path ≡ false))
WritesAll platform disk path value before (after, ok u) =
    (raw : Bytes) × (canonical platform value ≡ ok raw)
    × (file_at path before ≡ none)
    × (file_at path after ≡ some (raw ++ b'\n' ∷ []))
    × UnchangedBut path before after

taken-none :
    (m : Bool) (path : String) (files : Files)
    → is_taken (file_at path files) || m ≡ false
    → file_at path files ≡ none
taken-none m path files h = ground arith

-- A failed call after which the file is removed.
cleaned :
    (platform : Platform) (disk : Disk) (path : String) (value : Value) (before files : Files)
    (e : Error)
    → file_at path before ≡ none
    → UnchangedBut path before files
    → WritesAll platform disk path value before (clean_up platform disk path files, err e)
cleaned platform disk path value before files e absent kept = (
  UnchangedBut-clean_up platform disk path before files kept,
  elim (Bool-cases (disk.removes path)) [
    | inl removes ↦ inl (clean_up-Unchanged platform disk path before files removes absent kept)
    | inr stays ↦ inr stays
  ],
)

write_exclusive-WritesAll :
    (platform : Platform) (disk : Disk) (path : String) (value : Value) (raw : Bytes)
    (files : Files)
    → canonical platform value ≡ ok raw
    → WritesAll platform disk path value files
        (write_exclusive platform disk path (raw ++ b'\n' ∷ []) files)
unfolding write_exclusive
write_exclusive-WritesAll platform disk path value raw files canonical_bytes =
    let line = raw ++ b'\n' ∷ [] in
    let created = put_file path [] files in
    let made : UnchangedBut path files created =
      UnchangedBut-put_file path [] files files (λ other differ. refl) in
    let part = UnchangedBut-put_file path (disk.partial path) files created made in
    let full = UnchangedBut-put_file path line files created made in
    elim (Bool-cases (is_taken (file_at path files) || not (disk.creates path))) [
      | inl refused ↦ rw refused (λ other differ. refl, inl (λ other. refl))
      | inr free ↦
          let absent = taken-none (not (disk.creates path)) path files free in
          elim (Bool-cases (disk.writes path)) [
            | inr broken ↦
                rw (free, broken)
                  (cleaned platform disk path value files _ write_failed absent part)
            | inl writes ↦ elim (Bool-cases (disk.syncs path)) [
              | inr unsynced ↦
                  rw (free, writes, unsynced)
                    (cleaned platform disk path value files _ write_failed absent full)
              | inl syncs ↦ elim (Bool-cases (disk.closes path)) [
                | inr unclosed ↦
                    rw (free, writes, syncs, unclosed)
                      (cleaned platform disk path value files _ write_failed absent full)
                | inl closed ↦
                    rw (free, writes, syncs, closed)
                      (raw, canonical_bytes, absent, file_at-put_file path line created, full)
              ]
            ]
          ]
    ]

-- `WriteCanonicalExclusive` is all or nothing: on success the path, which had no file, holds the
-- canonical bytes of the value and a line end and every other path what it held; after any error every
-- other path holds what it held, and this one does as well, or a file there could not be removed.
pub write_canonical_exclusive-WritesAll :
    (platform : Platform) (disk : Disk) (path : String) (value : Value) (files : Files)
    → WritesAll platform disk path value files
        (write_canonical_exclusive platform disk path value files)
unfolding write_canonical_exclusive
write_canonical_exclusive-WritesAll platform disk path value files =
    write_checked (canonical platform value) refl
  where
    write_checked :
        (r : Result Bytes)
        → canonical platform value ≡ r
        → WritesAll platform disk path value files (elim r [
          | err e ↦ (files, err e)
          | ok raw ↦ write_exclusive platform disk path (raw ++ b'\n' ∷ []) files
        ])
    write_checked (err e) h = (λ other differ. refl, inl (λ other. refl))
    write_checked (ok raw) h = write_exclusive-WritesAll platform disk path value raw files h
