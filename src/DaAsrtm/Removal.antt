-- ===== src/DaAsrtm/Removal.antt =====
-- What the removal of a cluster leaves of the active manager.
use margot_project.Base.{[], ◌∷◌, none, ◌≡◌, false, OpPtr, ◌⊎◌}
use margot_project.Knowledge.{Configuration}
use margot_project.Features.{Feature}
use margot_project.Asrtm.{Asrtm}
use margot_project.DaAsrtm.{DataAwareAsrtm, AsrtmContainer, same_key, get_best_configuration}

-- No cluster has the key.
abbrev pub IsAbsent : Feature → AsrtmContainer → Type 0
IsAbsent key [] = Unit {0}
IsAbsent key ((k, m) ∷ l) = (same_key k key ≡ false) × IsAbsent key l

-- The keys of the clusters differ.
abbrev pub Distinct : AsrtmContainer → Type 0
Distinct [] = Unit {0}
Distinct ((k, m) ∷ l) = IsAbsent k l × Distinct l

-- What a removal that returns leaves.
abbrev pub IsRemoved : (OpPtr → Configuration) → DataAwareAsrtm → DataAwareAsrtm → Type 0
IsRemoved get_knobs d d' =
    (d'.active_manager ≡ none)
    × (get_best_configuration get_knobs d' ≡ none)
    × ((d'.managers ≡ d.managers) ⊎ ((e : Feature × Asrtm) × (d.managers ≡ e ∷ d'.managers)))
