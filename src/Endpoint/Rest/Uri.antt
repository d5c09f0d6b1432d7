-- ===== src/Endpoint/Rest/Uri.antt =====
-- `parse_uri` of src/endpoint/restful.c, and that it reads a path that src/dem/config.c prints.
use nvme_dem.Prelude.{
  ℕ, zero, suc, ◌≤◌, ◌≡◌, refl, ap, ap₂, ◌∙◌, false, List, [], ◌∷◌, ◌++◌, arith, All, length, ◌==◌,
  if◌then◌else◌, CStr,
}
use nvme_dem.Dem.Config.Oob.{path}

-- A part ends where the next slash was.
unfoldable pub up_to_slash : CStr → CStr
up_to_slash [] = []
up_to_slash (c ∷ s) = let rest = up_to_slash s in if c == b'/' then [] else c ∷ rest

-- The slash behind the last part that is stored counts as well: its part is empty here and never read.
abbrev pub part_at : ℕ → CStr → CStr
part_at zero s = []
part_at (suc d) s = up_to_slash s

-- The loop, with `d` the slashes that are left.
unfoldable pub parts_from : ℕ → CStr → List CStr
unfolding up_to_slash
parts_from zero s = []
parts_from (suc d) [] = []
parts_from (suc d) (c ∷ s) =
    let later = parts_from (suc d) s in
    let below = parts_from d s in if c == b'/' then part_at d s ∷ below else later

-- The parts; -1 is returned where there is none.
unfoldable pub parse_uri : CStr → ℕ → List CStr
unfolding parts_from
parse_uri p depth = parts_from (suc depth) p

abbrev pub HasNoSlash : CStr → Type 0
HasNoSlash = All (λ c. (c == b'/') ≡ false)

up_to_slash-part : (p r : CStr) → HasNoSlash p → up_to_slash (p ++ (b'/' ∷ r)) ≡ p
unfolding up_to_slash
up_to_slash-part [] r h = refl
up_to_slash-part (c ∷ p) r h = rw (h.0) (ap (λ s. c ∷ s) (up_to_slash-part p r h.1))

up_to_slash-last : (p : CStr) → HasNoSlash p → up_to_slash p ≡ p
unfolding up_to_slash
up_to_slash-last [] h = refl
up_to_slash-last (c ∷ p) h = rw (h.0) (ap (λ s. c ∷ s) (up_to_slash-last p h.1))

parts_from-part :
    (d : ℕ) (p r : CStr) → HasNoSlash p → parts_from (suc d) (p ++ r) ≡ parts_from (suc d) r
unfolding parts_from
parts_from-part d [] r h = refl
parts_from-part d (c ∷ p) r h = rw (h.0) (parts_from-part d p r h.1)

parts_from-last : (d : ℕ) (p : CStr) → HasNoSlash p → parts_from (suc d) p ≡ []
unfolding parts_from
parts_from-last d [] h = refl
parts_from-last d (c ∷ p) h = rw (h.0) (parts_from-last d p h.1)

-- A path of one part or more, up to the depth.
pub parse_uri-path :
    (depth : ℕ) (p : CStr) (ps : List CStr)
    → All HasNoSlash (p ∷ ps)
    → length (p ∷ ps) ≤ depth
    → parse_uri (b'/' ∷ path (p ∷ ps)) depth ≡ p ∷ ps
unfolding parse_uri parts_from
parse_uri-path zero p ps h k = absurd (omega arith)
parse_uri-path (suc d) p [] h k =
    ap₂ (λ a b. a ∷ b) (up_to_slash-last p (h.0)) (parts_from-last d p (h.0))
parse_uri-path (suc d) p (q ∷ ps) h k =
    ap₂ (λ a b. a ∷ b) (up_to_slash-part p (path (q ∷ ps)) (h.0))
      (parts_from-part d p (b'/' ∷ path (q ∷ ps)) (h.0) ∙ parse_uri-path d q ps h.1 (omega arith))
