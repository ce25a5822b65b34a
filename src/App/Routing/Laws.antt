-- ===== src/App/Routing/Laws.antt =====
-- The addresses of the navigation and the pages that they open.
use oort.Prelude.{◌≡◌, refl, ◌∷◌, ◌++◌}
use oort.Text.{Text}
use oort.App.Routing.{
  PageKey, overview, datasets, queries, connectors, apps, jobs, access, activity, page_from_hash,
  page_link,
}
use oort.Text.{lit, text_eq}
use oort.Text.Walk.{split}

-- The address that the navigation links to for a page opens that page, alone and with a slash and
-- any text behind it.
page_from_hash-page_link :
    (k : PageKey) (rest : Text)
    → (page_from_hash (page_link k) ≡ k) × (page_from_hash (page_link k ++ 47 ∷ rest) ≡ k)
unfolding page_from_hash page_link lit split text_eq
page_from_hash-page_link overview rest = (refl, refl)
page_from_hash-page_link datasets rest = (refl, refl)
page_from_hash-page_link queries rest = (refl, refl)
page_from_hash-page_link connectors rest = (refl, refl)
page_from_hash-page_link apps rest = (refl, refl)
page_from_hash-page_link jobs rest = (refl, refl)
page_from_hash-page_link access rest = (refl, refl)
page_from_hash-page_link activity rest = (refl, refl)
