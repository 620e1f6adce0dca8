-- ===== src/Finder.antt =====
-- SurrealJ2534Wrapper/gretioservicefinder.cpp: the class GretioServiceFinder. Its QZeroConf is a
-- library of another project; what the class asks of it is recorded, the newest first.
pub mod Alternation
use qt_gretio.Prelude.{String, Bool, true, false, List, [], ◌∷◌, if◌then◌else◌}

pub data Browse : Type 0 where
  start_browser : String → Browse
  stop_browser : Browse

pub record Finder : Type 0 where
  pub is_finding : Bool
  pub asked : List Browse

unfoldable pub new_finder : Finder
new_finder = record { is_finding = false; asked = [] }

abbrev pub service_type : String
service_type = "_gretiowebservice._tcp"

unfoldable pub find_services : Finder → Finder
find_services f =
    if f.is_finding
    then f
    else record f { is_finding = true; asked = start_browser service_type ∷ f.asked }

unfoldable pub stop_finding_services : Finder → Finder
stop_finding_services f =
    if f.is_finding then record f { is_finding = false; asked = stop_browser ∷ f.asked } else f
