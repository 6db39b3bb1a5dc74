-- ===== src/App/Url.antt =====
-- Application.cpp: normalizeApiUrl and resolveApiUrl, on the codes of a text's letters. `trimmed` is
-- QString::trimmed.
use Prim.Native.Char.{code}
use voxter.Common.{
  ◌≡◌, refl, ap, ◌∙◌, String, Bool, true, false, not, ◌&&◌, if◌then◌else◌, eqb, arith, ℕ, zero, suc,
  List, [], ◌∷◌, ◌++◌,
}

abbrev pub codes : String → List ℕ
codes String.[] = []
codes (String.◌∷◌ c s) = code c ∷ codes s

unfoldable pub starts_with : List ℕ → List ℕ → Bool
starts_with s [] = true
starts_with [] (d ∷ t) = false
starts_with (c ∷ s) (d ∷ t) = eqb c d && starts_with s t

abbrev is_nil : List ℕ → Bool
is_nil [] = true
is_nil (c ∷ s) = false

-- the text backwards, in front of another
unfoldable pub turned : List ℕ → List ℕ → List ℕ
turned [] t = t
turned (c ∷ s) t = turned s (c ∷ t)

-- The loop that takes the slashes off the end, on the text backwards, whose first letter is the
-- text's last one.
unfoldable pub chop_slashes : List ℕ → List ℕ
chop_slashes [] = []
chop_slashes (c ∷ s) = let rest = chop_slashes s in if eqb c 47 then rest else c ∷ s

unfoldable pub without_slashes : List ℕ → List ℕ
unfolding chop_slashes turned
without_slashes s = turned (chop_slashes (turned s [])) []

unfoldable pub with_scheme : List ℕ → List ℕ
unfolding starts_with
with_scheme s =
    if not (starts_with s (codes "http://")) && not (starts_with s (codes "https://"))
    then codes "http://" ++ s
    else s

module _ (trimmed : List ℕ → List ℕ) where
  unfoldable pub normalize_api_url : List ℕ → List ℕ
  unfolding with_scheme without_slashes
  normalize_api_url value =
      let s = trimmed value in if is_nil s then [] else without_slashes (with_scheme s)

  -- the environment variable, and the entry of the file beside the program
  unfoldable pub resolve_api_url : List ℕ → List ℕ → List ℕ
  unfolding normalize_api_url
  resolve_api_url from_environment from_file =
      let env = normalize_api_url from_environment in
      let file = normalize_api_url from_file in
      if not (is_nil env)
      then env
      else if not (is_nil file)
      then file
      else codes "http://81.90.25.34:4000"

abbrev pub slashes : ℕ → List ℕ → List ℕ
slashes zero t = t
slashes (suc n) t = 47 ∷ slashes n t

slashes-slash : (n : ℕ) (t : List ℕ) → slashes n (47 ∷ t) ≡ 47 ∷ slashes n t
slashes-slash zero t = refl
slashes-slash (suc n) t = ap (47 ∷◌) (slashes-slash n t)

turned-slashes : (n : ℕ) (t u : List ℕ) → turned (slashes n t) u ≡ turned t (slashes n u)
unfolding turned
turned-slashes zero t u = refl
turned-slashes (suc n) t u = turned-slashes n t (47 ∷ u) ∙ ap (turned t) (slashes-slash n u)

chop_slashes-slashes : (n : ℕ) (t : List ℕ) → chop_slashes (slashes n t) ≡ chop_slashes t
unfolding chop_slashes
chop_slashes-slashes zero t = refl
chop_slashes-slashes (suc n) t = chop_slashes-slashes n t

-- a scheme and slashes behind it
scheme_alone : (n : ℕ) → without_slashes (codes "http:" ++ slashes n []) ≡ codes "http:"
unfolding without_slashes turned
scheme_alone n =
    ap (λ (s : List ℕ). turned (chop_slashes s) []) (turned-slashes n [] (codes ":ptth"))
    ∙ ap (λ (s : List ℕ). turned s []) (chop_slashes-slashes n (codes ":ptth"))
    ∙ (unfold chop_slashes in refl)

-- Where trimming leaves a text of slashes alone as it is, also with "http:" in front, such a URL in
-- the environment gives "http:" as the client's URL, whatever the file holds: it counts as a URL,
-- though no host is in it, and neither the file's nor the built-in one is used.
pub resolve_api_url-slashes :
    (trimmed : List ℕ → List ℕ) (n : ℕ) (file : List ℕ)
    → trimmed (slashes (suc n) []) ≡ slashes (suc n) []
    → trimmed (codes "http:" ++ slashes (suc (suc n)) [])
      ≡ codes "http:" ++ slashes (suc (suc n)) []
    → (resolve_api_url trimmed (slashes (suc n) []) file ≡ codes "http:")
      × (resolve_api_url trimmed (codes "http:" ++ slashes (suc (suc n)) []) file ≡ codes "http:")
unfolding resolve_api_url normalize_api_url with_scheme starts_with
resolve_api_url-slashes trimmed n file e f = (
  ground (arith, e, scheme_alone (suc (suc (suc n)))),
  ground (arith, f, scheme_alone (suc (suc n))),
)
