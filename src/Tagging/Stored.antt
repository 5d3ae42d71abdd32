-- ===== src/Tagging/Stored.antt =====
-- Tags are replaced as a whole, for one object (internal/storage/tagging.go).
use byte_bucket.Prelude.{
  ℕ, ◌++◌, Bool, true, false, List, [], ◌∷◌, Option, none, some, Option-cases, ◌==◌, ==_refl,
  nat_equality, list_equality, list_test_iff, if◌then◌else◌, ◌≡◌, ◌≢◌, refl, sym, ap, ◌∙◌,
  Bool-cases, inl, inr, arith,
}
use byte_bucket.Bytes.{Bytes, bytes}
use byte_bucket.Table.{lookup, erase, lookup-insert, lookup-erase}
use byte_bucket.Tagging.{
  ObjectTag, Utf8, Json, Files, Write, written, write_fails, rename_fails, TagError, ok, failed,
  io_error, read_tags, validate_object_tags, leave, replace_file, object_tags_path, set_object_tags,
  get_object_tags, delete_object_tags,
}
use byte_bucket.Tagging.Limits.{IsTagSet, IsTagSet-validate}
use mathlib.Core.List.{append_cancel_right}

last : Bytes → ℕ
last [] = 0
last (c ∷ []) = c
last (c ∷ d ∷ s) = last (d ∷ s)

last-append : (s : Bytes) (c : ℕ) (t : Bytes) → last (s ++ (c ∷ t)) ≡ last (c ∷ t)
unfolding last
last-append [] c t = refl
last-append (d ∷ []) c t = refl
last-append (d ∷ e ∷ s) c t = last-append (e ∷ s) c t

one_end : ◌≢◌ {A = ℕ} b'p' b'n'
one_end = λ e. omega (arith, e)

-- The temporary file of one object is not the sidecar of another.
temp_apart : (p q : Bytes) → (object_tags_path p ++ bytes ".tmp" == object_tags_path q) ≡ false
unfolding object_tags_path last
temp_apart p q = elim (Bool-cases (object_tags_path p ++ bytes ".tmp" == object_tags_path q)) [
  | inr apart ↦ apart
  | inl same ↦ absurd (
      one_end (
        sym (last-append (object_tags_path p) b'.' (bytes "tmp"))
        ∙ ap last ((list_test_iff (object_tags_path p ++ bytes ".tmp") (object_tags_path q)).0 same)
        ∙ last-append q b'.' (bytes "tags.json")))
]

sidecars_apart :
    (p q : Bytes) → (p == q) ≡ false → (object_tags_path p == object_tags_path q) ≡ false
unfolding object_tags_path
sidecars_apart p q other = elim (Bool-cases (object_tags_path p == object_tags_path q)) [
  | inr apart ↦ apart
  | inl same ↦ absurd (
      cc (
        sym other,
        (list_test_iff p q).1 (
            append_cancel_right p q (bytes ".tags.json")
              ((list_test_iff (object_tags_path p) (object_tags_path q)).0 same)),
      ))
]

leave_other :
    (path key : Bytes) (left : Option Bytes) (files : Files)
    → (path == key) ≡ false
    → lookup key (leave path left files) ≡ lookup key files
unfolding leave
leave_other path key none files apart =
    lookup-erase path key files ∙ ap (λ (b : Bool). if b then none else lookup key files) apart
leave_other path key (some text) files apart =
    lookup-insert path key text files
    ∙ ap (λ (b : Bool). if b then some text else lookup key files) apart

-- A replacement that fails changes no file but the temporary one.
replace-failed :
    (io : Write) (path key text : Bytes) (files : Files) (e : TagError)
    → (path ++ bytes ".tmp" == key) ≡ false
    → (replace_file io path text files).0 ≡ failed e
    → lookup key (replace_file io path text files).1 ≡ lookup key files
unfolding replace_file leave
replace-failed (write_fails left) path key text files e apart h =
    leave_other (path ++ bytes ".tmp") key left files apart
replace-failed rename_fails path key text files e apart h =
    leave_other (path ++ bytes ".tmp") key (some text) files apart
replace-failed written path key text files e apart h = absurd (cc h)

-- One that succeeds changes no other file but the temporary one.
replace-written :
    (path key text : Bytes) (files : Files)
    → (path ++ bytes ".tmp" == key) ≡ false
    → lookup key (replace_file written path text files).1
      ≡ (if path == key then some text else lookup key files)
unfolding replace_file
replace-written path key text files apart =
    lookup-insert path key text (erase (path ++ bytes ".tmp") files)
    ∙ ap (λ (o : Option Bytes). if path == key then some text else o)
        (lookup-erase (path ++ bytes ".tmp") key files
          ∙ ap (λ (b : Bool). if b then none else lookup key files) apart)

answered : (path text : Bytes) (files : Files) → (replace_file written path text files).0 ≡ ok tt
unfolding replace_file
answered path text files = refl

module _ (utf8 : Utf8) (json : Json) where
  -- What the decoder promises about the encoder.
  abbrev pub IsFaithful : Type 0
  IsFaithful =
      (tags : List ObjectTag)
      → IsTagSet utf8 tags
      → (text : Bytes) × (json.marshal tags ≡ some text) × (json.unmarshal text ≡ some tags)

  set_of :
      (io : Write) (path text : Bytes) (tags : List ObjectTag) (files : Files)
      → validate_object_tags utf8 tags ≡ true
      → json.marshal tags ≡ some text
      → set_object_tags utf8 json io path tags files
        ≡ replace_file io (object_tags_path path) text files
  unfolding set_object_tags
  set_of io path text tags files v m = rw v (rw m refl)

  get_same :
      (reads : Bool) (path : Bytes) (before after : Files)
      → lookup (object_tags_path path) after ≡ lookup (object_tags_path path) before
      → get_object_tags json reads path after ≡ get_object_tags json reads path before
  unfolding get_object_tags
  get_same reads path before after h = ap (read_tags json reads) h

  nothing_read : (reads : Bool) → read_tags json reads none ≡ ok []
  unfolding read_tags
  nothing_read reads = refl

  text_read :
      (reads : Bool) (text : Bytes) (tags : List ObjectTag)
      → json.unmarshal text ≡ some tags
      → read_tags json reads (some text) ≡ (if reads then ok tags else failed io_error)
  unfolding read_tags
  text_read true text tags decoded = rw decoded refl
  text_read false text tags decoded = refl

  deleted :
      (reads : Bool) (path : Bytes) (files : Files) (text : Bytes)
      → lookup (object_tags_path path) files ≡ some text
      → get_object_tags json reads path (delete_object_tags true path files).1 ≡ ok []
  unfolding get_object_tags delete_object_tags
  deleted reads path files text there =
      let sidecar = object_tags_path path in
      rw (there, delete_object_tags)
        (ap (read_tags json reads) (
            lookup-erase sidecar sidecar files
            ∙ ap (λ (b : Bool). if b then none else lookup sidecar files) (==_refl sidecar))
          ∙ nothing_read reads)

  -- What is read for an object after the tags of one are stored.
  after_set :
      (reads : Bool) (path other text : Bytes) (tags : List ObjectTag) (files : Files)
      → json.unmarshal text ≡ some tags
      → get_object_tags json reads other (replace_file written (object_tags_path path) text files).1
        ≡ (if path == other
            then (if reads then ok tags else failed io_error)
            else get_object_tags json reads other files)
  unfolding get_object_tags
  after_set reads path other text tags files decoded =
      let found =
        replace-written (object_tags_path path) (object_tags_path other) text files
          (temp_apart path other) in
      elim (Bool-cases (path == other)) [
        | inl same ↦
            let one =
              (list_test_iff (object_tags_path path) (object_tags_path other)).1
                (ap object_tags_path ((list_test_iff path other).0 same)) in
            rw same (
              ap (read_tags json reads) (
                found
                ∙ ap (λ (b : Bool). if b then some text else lookup (object_tags_path other) files)
                    one)
              ∙ text_read reads text tags decoded)
        | inr apart ↦ rw apart (
            ap (read_tags json reads) (
              found
              ∙ ap (λ (b : Bool). if b then some text else lookup (object_tags_path other) files)
                  (sidecars_apart path other apart)))
      ]

  -- Where the decoder reads a legal tag set back from its encoding, a legal set that is stored for
  -- an object without a failing write is accepted and read back as it was, in its order, while the
  -- tags of every other object read as before; a file that cannot be read answers an error. Once
  -- they are deleted the object has no tags.
  pub get-set_object_tags :
      (path : Bytes) (tags : List ObjectTag) (files : Files) (reads : Bool) (other : Bytes)
      → IsFaithful
      → IsTagSet utf8 tags
      → let (answer, after) = set_object_tags utf8 json written path tags files in
        (answer ≡ ok tt)
        × (get_object_tags json reads other after ≡ (
            if path == other
            then (if reads then ok tags else failed io_error)
            else get_object_tags json reads other files))
        × (get_object_tags json reads path (delete_object_tags true path after).1 ≡ ok [])
  get-set_object_tags path tags files reads other faithful v =
      let (text, encoded, decoded) = faithful tags v in
      let sidecar = object_tags_path path in
      let stored = set_of written path text tags files (IsTagSet-validate utf8 tags v) encoded in
      let there =
        replace-written sidecar sidecar text files (temp_apart path path)
        ∙ ap (λ (b : Bool). if b then some text else lookup sidecar files) (==_refl sidecar) in
      rw stored (
        answered sidecar text files,
        after_set reads path other text tags files decoded,
        deleted reads path _ text there,
      )

  -- A set that fails, because it is not legal or cannot be encoded or because a write or a rename
  -- fails, changes the tags of no object.
  pub set_object_tags-failed :
      (io : Write) (path : Bytes) (tags : List ObjectTag) (files : Files) (e : TagError)
      (reads : Bool) (object : Bytes)
      → (set_object_tags utf8 json io path tags files).0 ≡ failed e
      → get_object_tags json reads object (set_object_tags utf8 json io path tags files).1
        ≡ get_object_tags json reads object files
  unfolding set_object_tags
  set_object_tags-failed io path tags files e reads object h =
      let sidecar = object_tags_path path in
      get_same reads object files (set_object_tags utf8 json io path tags files).1
        (elim (Bool-cases (validate_object_tags utf8 tags)) [
          | inr illegal ↦ rw illegal refl
          | inl legal ↦ elim (Option-cases (json.marshal tags)) [
            | inl refused ↦ rw legal (rw refused refl)
            | inr (text, encoded) ↦
                let stored = set_of io path text tags files legal encoded in
                rw stored (
                  replace-failed io sidecar (object_tags_path object) text files e
                    (temp_apart path object) (rw stored at h))
          ]
        ])
