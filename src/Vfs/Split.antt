-- ===== src/Vfs/Split.antt =====
-- Fs.cpp, `split`, and Cpio.cpp, `makeFile`: paths and their parts.
use flix.Base.{
  ◌≡◌, ◌≢◌, refl, ◌∙◌, sym, ap, true, false, Option, some, List, [], ◌∷◌, ◌++◌, arith, ◌==◌,
}
use mathlib.Core.Path.{fun_ext}
use mathlib.Core.List.{append-nil, append_assoc}
use flix.Vfs.{String, slash, is_empty, Inodes, file, split_from, split}
use flix.Vfs.Archive.{Contents, Made, made, push_back, descend, create, make_file}

abbrev pub NoSlash : String → Type 0
NoSlash [] = Unit
NoSlash (c ∷ cs) = (c ≢ 47) × NoSlash cs

-- A part of a path: not empty, and without `/`.
abbrev pub IsPart : String → Type 0
IsPart p = (is_empty p ≡ false) × NoSlash p

abbrev pub AllParts : List String → Type 0
AllParts [] = Unit
AllParts (p ∷ ps) = IsPart p × AllParts ps

-- The parts with a `/` between them.
abbrev pub join : List String → String
join [] = []
join (p ∷ []) = p
join (p ∷ q ∷ ps) = p ++ slash ∷ join (q ∷ ps)

split_from-part :
    (acc p rest : String)
    → NoSlash p
    → split_from true slash acc (p ++ rest) ≡ split_from true slash (acc ++ p) rest
unfolding split_from
split_from-part acc [] rest h = rw (append-nil acc) refl
split_from-part acc (c ∷ cs) rest h =
    let other : (c == slash) ≡ false = ground (arith, h.0) in
    rw (other, split_from)
      (split_from-part (acc ++ c ∷ []) cs rest h.1
        ∙ ap (λ t. split_from true slash t rest) (append_assoc acc (c ∷ []) cs))

-- Splitting parts that are not empty and have no slash, joined with slashes, gives the parts back.
pub split-join : (ps : List String) → AllParts ps → split (join ps) slash true ≡ ps
unfolding split_from
split-join [] h = refl
split-join (p ∷ []) h =
    ap (λ t. split t slash true) (sym (append-nil p))
    ∙ split_from-part [] p [] h.0.1
    ∙ rw (h.0.0) refl
split-join (p ∷ q ∷ ps) h =
    split_from-part [] p (slash ∷ join (q ∷ ps)) h.0.1 ∙ rw (h.0.0, split-join (q ∷ ps) h.1) refl

make_file-part :
    (acc p rest : String) (c : Contents) (is : Inodes)
    → NoSlash p
    → make_file acc (p ++ rest) c is ≡ make_file (acc ++ p) rest c is
unfolding make_file
make_file-part acc [] rest c is h = rw (append-nil acc) refl
make_file-part acc (x ∷ xs) rest c is h =
    let other : (x == slash) ≡ false = ground (arith, h.0) in
    rw (other, make_file)
      (make_file-part (acc ++ x ∷ []) xs rest c is h.1
        ∙ ap (λ t. make_file t rest c is) (append_assoc acc (x ∷ []) xs))

-- `makeFile`, on the parts of the path.
abbrev pub put : String → List String → Contents → Inodes → Option Made
put p [] c is = some (made (push_back (file p c.mode c.size c.bytes) is))
put p (q ∷ qs) c is = descend (put q qs c) p is (create (put q qs c) p is)

pub make_file-put :
    (p : String) (ps : List String) (c : Contents) (is : Inodes)
    → AllParts (p ∷ ps)
    → make_file [] (join (p ∷ ps)) c is ≡ put p ps c is
unfolding make_file
make_file-put p [] c is h =
    ap (λ t. make_file [] t c is) (sym (append-nil p))
    ∙ make_file-part [] p [] c is h.0.1
    ∙ rw (h.0.0) refl
make_file-put p (q ∷ qs) c is h =
    let same : (λ js. make_file [] (join (q ∷ qs)) c js) ≡ put q qs c =
      fun_ext (λ js. make_file-put q qs c js h.1) in
    make_file-part [] p (slash ∷ join (q ∷ qs)) c is h.0.1
    ∙ rw (h.0.0) (ap (λ f. descend f p is (create f p is)) same)
