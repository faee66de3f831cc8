-- ===== src/Repo/Construction/Scan.antt =====
-- Reading buildings whose coordinates may be missing.
use dsk_agent.Base.{
  if◌then◌else◌, ◌≡◌, refl, inl, inr, Bool, ◌&&◌, is_some, List, [], ◌∷◌, map, any, not, arith,
  Bool-cases,
}
use dsk_agent.Domain.Error.{ok, err}
use dsk_agent.Domain.Construction.{BuildingRow}
use dsk_agent.Repo.Construction.{scan_building, scan_listed, scan_all, null_to_float}

abbrev pub is_placed : {F : Type 0} → BuildingRow F → Bool
is_placed b = is_some b.latitude && is_some b.longitude

module _ {F : Type 0} (zero : F) where
  scan_listed-cases :
      (b : BuildingRow F)
      → scan_listed zero b ≡ (if is_placed b then ok (scan_building zero b) else err null_to_float)
  unfolding scan_listed
  scan_listed-cases b = ground arith

  -- The list of a complex's buildings is the list of what the read of each single building gives, if every one of
  -- them has both coordinates; one building without them makes the whole list fail, although it can be
  -- read by itself.
  pub scan_all_lem :
      (l : List (BuildingRow F))
      → scan_all zero l ≡ (
          if any (λ b. not (is_placed b)) l
          then err null_to_float
          else ok (map (scan_building zero) l))
  unfolding scan_all
  scan_all_lem [] = refl
  scan_all_lem (b ∷ l) = elim (Bool-cases (is_placed b)) [
    | inl e ↦ ground (arith, e, scan_listed-cases b, scan_all_lem l)
    | inr e ↦ ground (arith, e, scan_listed-cases b, scan_all_lem l)
  ]
