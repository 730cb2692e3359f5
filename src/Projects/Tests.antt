-- ===== src/Projects/Tests.antt =====
-- Runs of the operations on projects, and the theorems at them.
use restest.Base.{◌≡◌, refl, ◌++◌, false, [], ◌∷◌, codes}
use restest.Collections.{object}
use restest.Database.{Database, Project, Outcome, ok, failed, slug_taken}
use restest.Projects.{
  Dataset, Fresh, normalize_project, check_project, create_project, delete_project, mock_path,
}
use restest.Projects.Atomic.{AllOrNothing, create_project-AllOrNothing}

abbrev users : Dataset
users = record { name = codes "users"; seed = object [] ∷ [] }

abbrev fresh : Fresh
fresh = record {
  project = codes "p";
  collection = λ name. codes "c" ++ name;
  endpoint = λ name. codes "e" ++ name;
  uuids = λ _. codes "u";
  now = 5;
}

abbrev empty : Database
empty = record { users = []; tokens = []; projects = []; collections = []; endpoints = [] }

abbrev shop : Project
shop = record {
  id = codes "p";
  owner_id = codes "o";
  slug = codes "shop";
  name = codes "Shop";
  is_demo = false;
  created_at = 5;
  updated_at = 5;
}

abbrev created : Outcome Project × Database
created =
    create_project (users ∷ []) fresh (codes "o") (codes " Shop") (codes "Shop")
      (codes "Users" ∷ []) empty

created_shop : created.0 ≡ ok shop
unfolding create_project
created_shop = refl

shop_path : mock_path shop ≡ codes "/m/shop/"
unfolding mock_path
shop_path = refl

taken_slug :
    create_project [] fresh (codes "x") (codes "shop") (codes "Mine") [] created.1
    ≡ (failed slug_taken, created.1)
unfolding create_project
taken_slug = refl

deleted_shop : delete_project (codes "o") (codes "p") created.1 ≡ (ok tt, empty)
unfolding create_project delete_project
deleted_shop = refl

create_project-AllOrNothing_example :
    AllOrNothing
      (check_project
        (users ∷ [])
        (normalize_project (codes " Shop") (codes "Shop")).0
        (normalize_project (codes " Shop") (codes "Shop")).1
        (codes "Users" ∷ [])).1
      empty
      created
create_project-AllOrNothing_example =
    create_project-AllOrNothing (users ∷ []) fresh (codes "o") (codes " Shop") (codes "Shop")
      (codes "Users" ∷ []) empty
