-- ===== src/Guest/Examples.antt =====
-- A path that crates/ne-guest-agent/src/files.rs accepts.
use ne_enclave.Common.{◌≡◌, refl, ok, All, List, [], ◌∷◌}
use ne_enclave.Text.{Text, codes}
use ne_enclave.Guest.Paths.{split, push_components, validate_relative_path}
use ne_enclave.Guest.Confinement.{IsName, join, walk, validate_relative_path-IsName}

abbrev out_log : List Text
out_log = codes "out" ∷ codes "..log" ∷ []

accepted : validate_relative_path (codes "out/..log") ≡ ok out_log
unfolding validate_relative_path push_components split
accepted = refl

validate_relative_path-IsName_example :
    (join b'/' out_log ≡ codes "out/..log")
    × All IsName out_log
    × (walk (codes "work" ∷ []) out_log ≡ codes "work" ∷ out_log)
validate_relative_path-IsName_example =
    validate_relative_path-IsName (codes "out/..log") out_log (codes "work" ∷ []) accepted
