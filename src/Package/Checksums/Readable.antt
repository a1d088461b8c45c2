-- ===== src/Package/Checksums/Readable.antt =====
-- What scripts/generate_checksums.py writes, scripts/package_source.py reads.
use mathlib.Core.List.{append_assoc}
use coupon_service.Base.{
  ◌≡◌, refl, ap, ◌∙◌, false, ◌||◌, Bool-cases, inl, inr, some, [], ◌∷◌, ◌++◌, map, arith, ◌=?◌,
  Text, codes, text_eq, text_beq_iff, is_empty, join, Dict, keys, has_key, Distinct, All,
}
use coupon_service.Base.Sort.{parts_le}
use coupon_service.Base.Utf8.{decode_utf8}
use coupon_service.Package.Failure.{ok}
use coupon_service.Package.Manifest.{parse_checksums}
use coupon_service.Package.Manifest.RoundTrip.{
  IsWritable, manifest_text, parse_checksums-manifest_text,
}
use coupon_service.Package.Paths.{parts}
use coupon_service.Package.Checksums
use coupon_service.Package.Checksums.{
  Node, file, other, path_included, included, insert_file, sorted_files, digest_of, digests,
  checksum_line, manifest,
}

contains-insert_file :
    (j : Text) (f : Text × Text) (gs : Dict Text Text)
    → has_key j (insert_file f gs) ≡ (j =? f.0 || has_key j gs)
unfolding insert_file
contains-insert_file j f [] = refl
contains-insert_file j f (g ∷ gs) = ground (arith, contains-insert_file j f gs)

insert_file-Distinct :
    (f : Text × Text) (gs : Dict Text Text)
    → has_key f.0 gs ≡ false
    → Distinct (keys gs)
    → Distinct (keys (insert_file f gs))
unfolding insert_file
insert_file-Distinct f [] new u = (refl, tt)
insert_file-Distinct f (g ∷ gs) new (fresh, u) = ground (
  arith,
  insert_file-Distinct f gs,
  contains-insert_file g.0 f gs,
  text_beq_iff f.0 g.0,
  text_beq_iff g.0 f.0,
)

contains-sorted_files :
    (j : Text) (fs : Dict Text Text) → has_key j (sorted_files fs) ≡ has_key j fs
unfolding sorted_files
contains-sorted_files j [] = refl
contains-sorted_files j (f ∷ fs) =
    contains-insert_file j f (sorted_files fs) ∙ rw (contains-sorted_files j fs)

sorted_files-Distinct :
    (fs : Dict Text Text) → Distinct (keys fs) → Distinct (keys (sorted_files fs))
unfolding sorted_files
sorted_files-Distinct [] u = tt
sorted_files-Distinct (f ∷ fs) (fresh, u) =
    insert_file-Distinct f (sorted_files fs) (contains-sorted_files f.0 fs ∙ fresh)
      (sorted_files-Distinct fs u)

insert_file-All {ℓ} :
    (P : Text × Text → Type ℓ) (f : Text × Text) (gs : Dict Text Text)
    → P f
    → All P gs
    → All P (insert_file f gs)
unfolding insert_file
insert_file-All P f [] p a = (p, tt)
insert_file-All P f (g ∷ gs) p (q, a) = elim (Bool-cases (parts_le (parts f.0) (parts g.0))) [
  | inl low ↦ rw low (p, (q, a))
  | inr high ↦ rw high (q, insert_file-All P f gs p a)
]

sorted_files-All {ℓ} :
    (P : Text × Text → Type ℓ) (fs : Dict Text Text) → All P fs → All P (sorted_files fs)
unfolding sorted_files
sorted_files-All P [] a = tt
sorted_files-All P (f ∷ fs) (p, a) =
    insert_file-All P f (sorted_files fs) p (sorted_files-All P fs a)

contains-included :
    (j : Text) (nodes : Dict Text Node)
    → has_key j nodes ≡ false
    → has_key j (included nodes) ≡ false
unfolding included
contains-included j [] h = refl
contains-included j ((path, file bytes) ∷ nodes) h = ground (arith, contains-included j nodes)
contains-included j ((path, other) ∷ nodes) h = ground (arith, contains-included j nodes)

included-Distinct :
    (nodes : Dict Text Node) → Distinct (keys nodes) → Distinct (keys (included nodes))
unfolding included
included-Distinct [] u = tt
included-Distinct ((path, file bytes) ∷ nodes) (fresh, u) =
    ground (arith, included-Distinct nodes u, contains-included path nodes)
included-Distinct ((path, other) ∷ nodes) (fresh, u) = included-Distinct nodes u

module _ (sha256 : Text → Text) where
  keys-digest_of : (fs : Dict Text Text) → keys (map (digest_of sha256) fs) ≡ keys fs
  keys-digest_of [] = refl
  keys-digest_of ((path, bytes) ∷ fs) = ap (◌∷◌ path) (keys-digest_of fs)

  digest_of-All :
      (fs : Dict Text Text)
      → All (λ f. IsWritable (digest_of sha256 f)) fs
      → All IsWritable (map (digest_of sha256) fs)
  digest_of-All [] a = tt
  digest_of-All ((path, bytes) ∷ fs) (w, a) = (w, digest_of-All fs a)

  -- the lines joined, and the last line feed
  join-lines :
      (e : Text × Text) (es : Dict Text Text)
      → join (codes "\n") (map (Checksums.checksum_line sha256) (e ∷ es)) ++ codes "\n"
        ≡ manifest_text (e ∷ es)
  unfolding join
  join-lines e [] = refl
  join-lines e (f ∷ fs) =
      append_assoc (Checksums.checksum_line sha256 e) _ (codes "\n")
      ∙ ap (λ t. Checksums.checksum_line sha256 e ++ (codes "\n" ++ t)) (join-lines f fs)

  text-of-some :
      (es : Dict Text Text)
      → is_empty es ≡ false
      → join (codes "\n") (map (Checksums.checksum_line sha256) es) ++ codes "\n" ≡ manifest_text es
  text-of-some [] some_files = cc
  text-of-some (e ∷ es) some_files = join-lines e es

  -- Where some file is included, each included path is one line of text and each digest is 64
  -- hexadecimal digits, the manifest that generate_checksums.py writes is read by package_source.py as
  -- the included paths in their order, each with the digest of its file.
  pub parse_checksums-manifest :
      (nodes : Dict Text Node) (bytes : Text)
      → decode_utf8 bytes ≡ some (manifest sha256 nodes)
      → Distinct (keys nodes)
      → All (λ f. IsWritable (digest_of sha256 f)) (included nodes)
      → is_empty (digests sha256 nodes) ≡ false
      → parse_checksums bytes ≡ ok (digests sha256 nodes)
  unfolding manifest digests
  parse_checksums-manifest nodes bytes decoded u writable some_files =
      let files = sorted_files (included nodes) in
      parse_checksums-manifest_text bytes (map (digest_of sha256) files)
        (decoded ∙ ap some (text-of-some (map (digest_of sha256) files) some_files))
        (digest_of-All files (sorted_files-All _ (included nodes) writable))
        (rw (keys-digest_of files)
          (sorted_files-Distinct (included nodes) (included-Distinct nodes u)))
