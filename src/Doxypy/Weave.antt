-- ===== src/Doxypy/Weave.antt =====
-- An output that holds given lines in their order, and comment blocks between them.
use aegir_sdr.Common.{List, [], ◌∷◌, ◌++◌, ◌≡◌, sym, ap, ◌∙◌, Text, append_assoc, append-nil}
use aegir_sdr.Doxypy.Machine.{make_comment_block, comment_block}

pub data Weave : List Text → List Text → Type 0 where
  done : Weave [] []
  code : {xs ys : List Text} (x : Text) → Weave xs ys → Weave (x ∷ xs) (x ∷ ys)
  block :
      {xs ys zs : List Text} (indent : Text) (lines : List Text)
      → Weave xs ys
      → zs ≡ make_comment_block indent lines ++ ys
      → Weave xs zs

pub Weave-append :
    {xs ys us vs : List Text} → Weave xs ys → Weave us vs → Weave (xs ++ us) (ys ++ vs)
Weave-append done q = q
Weave-append (code x p) q = code x (Weave-append p q)
Weave-append {vs} (block {ys} i c p e) q =
    block i c (Weave-append p q) (ap (λ l. l ++ vs) e ∙ append_assoc (make_comment_block i c) ys vs)

pub Weave-refl : (xs : List Text) → Weave xs xs
Weave-refl [] = done
Weave-refl (x ∷ xs) = code x (Weave-refl xs)

Weave-comment_block : (indent : Text) (lines : List Text) → Weave [] (comment_block indent lines)
unfolding comment_block
Weave-comment_block indent [] = done
Weave-comment_block indent (x ∷ r) =
    block indent (x ∷ r) done (sym (append-nil (make_comment_block indent (x ∷ r))))

-- A block, and lines behind it, at the end of what is woven already.
pub Weave-close :
    {ks out : List Text} (indent : Text) (lines def : List Text)
    → Weave ks out
    → Weave (ks ++ def) (out ++ comment_block indent lines ++ def)
Weave-close indent lines def w =
    rw append_assoc
      (Weave-append w (Weave-append (Weave-comment_block indent lines) (Weave-refl def)))
