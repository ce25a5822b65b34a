-- ===== src/Overview/Laws.antt =====
-- The next step that the overview proposes.
use oort.Prelude.{
  ◌≡◌, refl, ◌≢◌, inl, inr, true, false, Option, none, some, List, [], ◌∷◌, Bool-cases, find, All,
}
use mathlib.Core.List.{Memᴰ}
use oort.Api.{Dashboard, AppInfo, Dataset, QueryRevision}
use oort.Overview.{Stage, upload_first, save_query_first, deploy_first, live, is_deployed, stage}

-- What holds of the lists of a workspace at a stage.
abbrev pub IsAt : List Dataset → List QueryRevision → List AppInfo → Stage → Type 0
IsAt ds qs apps upload_first = ds ≡ []
IsAt ds qs apps save_query_first = (ds ≢ []) × (qs ≡ [])
IsAt ds qs apps deploy_first = (ds ≢ []) × (qs ≢ []) × All (λ a. is_deployed a ≡ false) apps
IsAt ds qs apps (live a) = (ds ≢ []) × (qs ≢ []) × Memᴰ a apps × (is_deployed a ≡ true)

-- What `find` finds, or that there is nothing to find.
abbrev Found : List AppInfo → Option AppInfo → Type 0
Found apps none = All (λ a. is_deployed a ≡ false) apps
Found apps (some a) = Memᴰ a apps × (is_deployed a ≡ true)

Found-cons :
    (x : AppInfo) (apps : List AppInfo) (o : Option AppInfo)
    → is_deployed x ≡ false
    → Found apps o
    → Found (x ∷ apps) o
Found-cons x apps none n h = (n, h)
Found-cons x apps (some a) n (m, y) = (Memᴰ.tail m, y)

find-Found : (apps : List AppInfo) → Found apps (find is_deployed apps)
find-Found [] = tt
find-Found (x ∷ apps) = elim (Bool-cases (is_deployed x)) [
  | inl y ↦ rw y (Memᴰ.head refl, y)
  | inr n ↦ rw n (Found-cons x apps (find is_deployed apps) n (find-Found apps))
]

deployed-IsAt :
    (ds : List Dataset) (qs : List QueryRevision) (apps : List AppInfo) (o : Option AppInfo)
    → ds ≢ []
    → qs ≢ []
    → Found apps o
    → IsAt ds qs apps (elim o [ none ↦ deploy_first | some a ↦ live a ])
deployed-IsAt ds qs apps none h k f = (h, k, f)
deployed-IsAt ds qs apps (some a) h k (m, y) = (h, k, m, y)

lists-IsAt :
    (ds : List Dataset) (qs : List QueryRevision) (apps : List AppInfo)
    → IsAt ds qs apps (elim ds [
      | [] ↦ upload_first
      | _ ∷ _ ↦ elim qs [
        | [] ↦ save_query_first
        | _ ∷ _ ↦ elim (find is_deployed apps) [ none ↦ deploy_first | some a ↦ live a ]
      ]
    ])
lists-IsAt [] qs apps = refl
lists-IsAt (d ∷ ds) [] apps = ((λ h. cc), refl)
lists-IsAt (d ∷ ds) (q ∷ qs) apps =
    deployed-IsAt (d ∷ ds) (q ∷ qs) apps (find is_deployed apps) (λ h. cc) (λ h. cc)
      (find-Found apps)

-- The stage is the first of three steps that the workspace has not taken: a dataset, a query, an
-- app with a release. If it has taken them all, the app that is called live is one of its apps and
-- has a release.
stage-IsAt : (d : Dashboard) → IsAt d.datasets d.queries d.apps (stage d)
unfolding stage
stage-IsAt d = lists-IsAt d.datasets d.queries d.apps
