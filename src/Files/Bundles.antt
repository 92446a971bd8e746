-- ===== src/Files/Bundles.antt =====
-- `WriteBundle` and `LoadBundle` of internal/rpf/verify.go.
use runtime_provenance_firew.Base.{
  String, ◌<>◌, ◌≡◌, ◌≢◌, ◌⊎◌, inl, inr, refl, sym, ap, ◌∙◌, some, List, [], ◌∷◌, ◌++◌, arith,
  Bool-cases, string_eq, Result, ok, err,
}
use runtime_provenance_firew.Json.{Value}
use runtime_provenance_firew.Platform.{Platform, Bytes}
use runtime_provenance_firew.Parse.{canonical}
use runtime_provenance_firew.Files.{
  Files, Disk, file_at, remove_file, put_file, write_through, write_values,
}
use runtime_provenance_firew.Files.Exclusive.{
  file_at-put_file, file_at-put_file-other, file_at-remove_file-other,
}

abbrev pub Has : List (String × Value) → String → Value → Type 0
Has [] name value = ⊥
Has ((n, v) ∷ values) name value = ((n ≡ name) × (v ≡ value)) ⊎ Has values name value

module _ (disk : Disk) (directory : String) where
  abbrev path_of : String → String
  path_of name = disk.join directory name

  -- No value is written over the path, neither at its end nor on its way.
  abbrev pub IsAway : String → List (String × Value) → Type 0
  IsAway path [] = Unit
  IsAway path ((name, value) ∷ values) =
      (path ≢ path_of name) × (path ≢ path_of name <> ".tmp") × IsAway path values

  -- The files of the values are apart.
  abbrev pub AreApart : List (String × Value) → Type 0
  AreApart [] = Unit
  AreApart ((name, value) ∷ values) = IsAway (path_of name) values × AreApart values

module _ (platform : Platform) (disk : Disk) where
  write_through-eq-ok :
      (path : String) (content : Bytes) (files : Files)
      → (write_through platform disk path content files).1 ≡ ok tt
      → (file_at path (write_through platform disk path content files).0 ≡ some content)
        × ((other : String)
            → other ≢ path
            → other ≢ path <> ".tmp"
            → file_at other (write_through platform disk path content files).0
              ≡ file_at other files)
  unfolding write_through
  write_through-eq-ok path content files h =
      let temporary = path <> ".tmp" in
      let written = put_file temporary content files in
      elim (Bool-cases (disk.writes temporary)) [
        | inr broken ↦ absurd (ground arith)
        | inl fine ↦ elim (Bool-cases (disk.renames path)) [
          | inr broken ↦ absurd (ground arith)
          | inl moved ↦
              rw (fine, moved)
                (
                  file_at-put_file path content (remove_file temporary written),
                  λ other differ away.
                      file_at-put_file-other path other content (remove_file temporary written)
                        differ
                      ∙ file_at-remove_file-other temporary other written away
                      ∙ file_at-put_file-other temporary other content files away,
                )
        ]
      ]

  -- What a round of the loop has gone through.
  record IsWritten (directory name : String) (value : Value) (values : List (String × Value))
      (files : Files) (r : Files × Result (Unit {0})) : Type 0 where
    raw : Bytes
    written : canonical platform value ≡ ok raw
    round :
        (write_through platform disk (disk.join directory name) (raw ++ b'\n' ∷ []) files).1 ≡ ok tt
    rest :
        r
        ≡ write_values platform disk directory values
            (write_through platform disk (disk.join directory name) (raw ++ b'\n' ∷ []) files).0

  module _ (directory name : String) (value : Value) (values : List (String × Value))
      (files : Files) where
    abbrev through : Bytes → Files × Result (Unit {0})
    through raw = write_through platform disk (disk.join directory name) (raw ++ b'\n' ∷ []) files

    abbrev rounds : Files × Result (Unit {0}) → Files × Result (Unit {0})
    rounds round = elim round.1 [
      | err e ↦ (round.0, err e)
      | ok _ ↦ write_values platform disk directory values round.0
    ]

    round-IsWritten :
        (raw : Bytes) (round : Files × Result (Unit {0}))
        → canonical platform value ≡ ok raw
        → through raw ≡ round
        → (rounds round).1 ≡ ok tt
        → IsWritten directory name value values files (rounds round)
    round-IsWritten raw (next, err e) written same h = cc
    round-IsWritten raw (next, ok u) written same h = record {
      raw = raw;
      written = written;
      round = ap (λ r. r.1) same;
      rest = ap (λ r. write_values platform disk directory values r.0) (sym same);
    }

    abbrev attempt : Result Bytes → Files × Result (Unit {0})
    attempt r = elim r [ err e ↦ (files, err e) | ok raw ↦ rounds (through raw) ]

    text-IsWritten :
        (r : Result Bytes)
        → canonical platform value ≡ r
        → (attempt r).1 ≡ ok tt
        → IsWritten directory name value values files (attempt r)
    text-IsWritten (err e) written h = cc
    text-IsWritten (ok raw) written h = round-IsWritten raw (through raw) written refl h

  write_values-eq-ok :
      (directory name : String) (value : Value) (values : List (String × Value)) (files : Files)
      → (write_values platform disk directory ((name, value) ∷ values) files).1 ≡ ok tt
      → IsWritten directory name value values files
          (write_values platform disk directory ((name, value) ∷ values) files)
  unfolding write_values
  write_values-eq-ok directory name value values files h =
      text-IsWritten directory name value values files (canonical platform value) refl h

  write_values-IsAway :
      (directory path : String) (values : List (String × Value)) (files : Files)
      → IsAway disk directory path values
      → (write_values platform disk directory values files).1 ≡ ok tt
      → file_at path (write_values platform disk directory values files).0 ≡ file_at path files
  unfolding write_values
  write_values-IsAway directory path [] files away h = refl
  write_values-IsAway directory path ((name, value) ∷ values) files (final, temporary, away) h =
      let w = write_values-eq-ok directory name value values files h in
      let (_, kept) =
        write_through-eq-ok (disk.join directory name) (w.raw ++ b'\n' ∷ []) files w.round in
      ap (λ r. file_at path r.0) w.rest
      ∙ write_values-IsAway directory path values _ away (ap (λ r. r.1) (sym w.rest) ∙ h)
      ∙ kept path final temporary

  -- Each value's canonical bytes and a line end stand at its path.
  pub write_values-Has :
      (directory name : String) (value : Value) (values : List (String × Value)) (files : Files)
      → AreApart disk directory values
      → (write_values platform disk directory values files).1 ≡ ok tt
      → Has values name value
      → (raw : Bytes) × (canonical platform value ≡ ok raw)
        × (file_at (disk.join directory name) (write_values platform disk directory values files).0
            ≡ some (raw ++ b'\n' ∷ []))
  write_values-Has directory name value [] files apart h has = absurd has
  write_values-Has directory name value ((n, v) ∷ values) files (away, apart) h has =
      let w = write_values-eq-ok directory n v values files h in
      let (wrote, _) =
        write_through-eq-ok (disk.join directory n) (w.raw ++ b'\n' ∷ []) files w.round in
      let later = ap (λ r. r.1) (sym w.rest) ∙ h in
      elim has [
        | inl (same_name, same_value) ↦ (
          w.raw,
          ap (canonical platform) (sym same_value) ∙ w.written,
          ap
                (λ k.
                  file_at (disk.join directory k)
                    (write_values platform disk directory ((n, v) ∷ values) files).0)
                (sym same_name)
              ∙ ap (λ r. file_at (disk.join directory n) r.0) w.rest
              ∙ write_values-IsAway directory (disk.join directory n) values _ away later
              ∙ wrote,
        )
        | inr there ↦
            let (raw, written, stands) =
              write_values-Has directory name value values _ apart later there in
            (raw, written, ap (λ r. file_at (disk.join directory name) r.0) w.rest ∙ stands)
      ]
