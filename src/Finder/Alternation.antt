-- ===== src/Finder/Alternation.antt =====
-- The browser is started and stopped in turn.
use qt_gretio.Prelude.{◌≡◌, ap, Bool, true, false, List, [], ◌∷◌}
use qt_gretio.Qt.{Qt}
use qt_gretio.Auth.{Disk}
use qt_gretio.Context.{Event, new_context, delete_context}
use qt_gretio.Context.Evolution.{handle_all, handle_all-Evolves}
use qt_gretio.Finder.{
  Browse, start_browser, stop_browser, Finder, new_finder, service_type, find_services,
  stop_finding_services,
}

-- What has been asked of the browser, by whether it runs.
pub data Alternates : Bool → List Browse → Type 0 where
  never : Alternates false []
  started :
      {asked : List Browse}
      → Alternates false asked
      → Alternates true (start_browser service_type ∷ asked)
  stopped : {asked : List Browse} → Alternates true asked → Alternates false (stop_browser ∷ asked)

-- A use of the class: true is a call of findServices, false one of stopFindingServices.
unfoldable pub use_finder : List Bool → Finder → Finder
use_finder [] f = f
use_finder (true ∷ us) f = use_finder us (find_services f)
use_finder (false ∷ us) f = use_finder us (stop_finding_services f)

abbrev IsFair : Finder → Type 0
IsFair f = Alternates f.is_finding f.asked

find_services-IsFair :
    (b : Bool) (asked : List Browse)
    → Alternates b asked
    → IsFair (find_services (record { is_finding = b; asked = asked }))
unfolding find_services
find_services-IsFair true asked h = h
find_services-IsFair false asked h = started h

stop_finding_services-IsFair :
    (b : Bool) (asked : List Browse)
    → Alternates b asked
    → IsFair (stop_finding_services (record { is_finding = b; asked = asked }))
unfolding stop_finding_services
stop_finding_services-IsFair true asked h = stopped h
stop_finding_services-IsFair false asked h = h

use_finder-IsFair : (us : List Bool) (f : Finder) → IsFair f → IsFair (use_finder us f)
unfolding use_finder
use_finder-IsFair [] f h = h
use_finder-IsFair (true ∷ us) f h =
    use_finder-IsFair us (find_services f) (find_services-IsFair f.is_finding f.asked h)
use_finder-IsFair (false ∷ us) f h =
    use_finder-IsFair us (stop_finding_services f)
      (stop_finding_services-IsFair f.is_finding f.asked h)

-- In whatever order the two methods of a new finder are called, its browser is started for the
-- service type and stopped in turn, beginning with a start, and it runs exactly if `isFinding` is
-- set; and the finder of a context, whatever happens while the context lives, has started the
-- browser once and stopped it once when the context is deleted.
pub use_finder-Alternates :
    (us : List Bool) (q : Qt) (disk : Disk q) (es : List (Event q))
    → let f = use_finder us new_finder in
      Alternates f.is_finding f.asked
      × ((delete_context q (handle_all q es (new_context q disk))).finder.asked
          ≡ stop_browser ∷ start_browser service_type ∷ [])
unfolding new_finder new_context delete_context find_services stop_finding_services
use_finder-Alternates us q disk es = (
  use_finder-IsFair us new_finder never,
  ap (λ (f : Finder). (stop_finding_services f).asked)
      (handle_all-Evolves q es (new_context q disk)).same_finder,
)
