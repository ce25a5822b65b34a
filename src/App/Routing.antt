-- ===== src/App/Routing.antt =====
-- The page that the address names.
pub mod Laws
use oort.Prelude.{List, [], ◌∷◌, ◌++◌, if◌then◌else◌, ◌==◌}
use oort.Text.{Text, lit, text_eq}
use oort.Text.Walk.{split}

pub data PageKey : Type 0 where
  overview datasets queries connectors apps jobs access activity : PageKey

abbrev pub key_text : PageKey → Text
key_text overview = lit "overview"
key_text datasets = lit "datasets"
key_text queries = lit "queries"
key_text connectors = lit "connectors"
key_text apps = lit "apps"
key_text jobs = lit "jobs"
key_text access = lit "access"
key_text activity = lit "activity"

-- the table `pages`
abbrev pub pages : List PageKey
pages = overview ∷ datasets ∷ queries ∷ connectors ∷ apps ∷ jobs ∷ access ∷ activity ∷ []

-- `replace(/^#\/?/, '')`
strip_hash : Text → Text
strip_hash [] = []
strip_hash (c ∷ []) = if c == 35 then [] else c ∷ []
strip_hash (c ∷ (d ∷ s)) = if c == 35 then (if d == 47 then s else d ∷ s) else c ∷ (d ∷ s)

find_page : Text → List PageKey → PageKey
find_page name [] = overview
find_page name (p ∷ ps) = if text_eq (key_text p) name then p else find_page name ps

abbrev first_part : List Text → Text
first_part [] = []
first_part (p ∷ ps) = p

unfoldable pub page_from_hash : Text → PageKey
unfolding strip_hash find_page
page_from_hash hash = find_page (first_part (split 47 (strip_hash hash))) pages

-- the address that the navigation links to
unfoldable pub page_link : PageKey → Text
page_link k = lit "#/" ++ key_text k
