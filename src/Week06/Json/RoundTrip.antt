-- ===== src/Week06/Json/RoundTrip.antt =====
-- Values of week06/src/ds/json that are read back from the text that `serialize_json` makes of them.
pub mod Arrays
pub mod Pairs
pub mod Objects
pub mod Rebuilt
pub mod Made
use networks_course.Prelude.{◌≡◌, refl, Bytes, List, ◌∷◌, ◌++◌, append_assoc, Run, ok, fault, ◌>>=◌}
use networks_course.Week06.Machine.{Machine}
use networks_course.Week06.Json.Value.{Json}
use networks_course.Week06.Json.Serializer.{join, serialize_json_at}
use networks_course.Week06.Json.Parser.Trees.{Tree, build}
use networks_course.Week06.Json.Parser.Printed.{print, IsWritten}

-- A value that is built of a sentence and printed as that sentence, where printing it returns.
pub record ReadBack (m : Machine) (v : Json) : Type 0 where
  pub tree : Tree
  pub builds : build m tree ≡ ok v
  pub written : IsWritten tree
  pub printed : (txt : Bytes) → serialize_json_at m v ≡ ok txt → txt ≡ print tree

-- Texts with a comma after each but the last, before something else.
pub join-cons :
    (text next tail : Bytes) (rest : List Bytes)
    → join (text ∷ next ∷ rest) ++ tail ≡ text ++ 44 ∷ (join (next ∷ rest) ++ tail)
unfolding join
join-cons text next tail rest = append_assoc text (44 ∷ join (next ∷ rest)) tail

pub bind_ok : {A : Type 0} (r : Run A) → (r >>= λ a. ok a) ≡ r
bind_ok (ok a) = refl
bind_ok fault = refl

pub bind_cong :
    {A B : Type 0} {f g : A → Run B} (r : Run A) → ((a : A) → f a ≡ g a) → (r >>= f) ≡ (r >>= g)
bind_cong (ok a) h = h a
bind_cong fault h = refl

pub bind_assoc :
    {A B C : Type 0} (r : Run A) (f : A → Run B) (g : B → Run C)
    → (r >>= λ a. f a >>= g) ≡ ((r >>= f) >>= g)
bind_assoc (ok a) f g = refl
bind_assoc fault f g = refl
