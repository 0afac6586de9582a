-- ===== src/Cve/Addons/Laws.antt =====
-- When the two clients of control-plane/app detect the same add-ons.
use kaaval.Base.{
  ◌≡◌, refl, sym, ap, ◌∙◌, ◌≤◌, String, Bool, Option, none, some, List, [], ◌∷◌, ◌++◌, length,
  filter, All, All-append, Bool-cases, inl, inr, arith,
}
use kaaval.Base.Dict.{Dict}
use kaaval.Base.Regex.{Piece}
use kaaval.Cve.Addons.{
  addon_image_patterns, image_matches, match_from, match_addon, Workload, Detection, add_found,
  add_first, add_every, read_images, read_workloads, read_listings, detect_addons,
  detect_addons_remote,
}

abbrev matched_by : String → String × List Piece → Bool
matched_by image (addon_name, pattern) = image_matches pattern image

-- The add-ons whose pattern the image matches.
abbrev pub addons_of : String → Dict String (List Piece)
addons_of image = filter (matched_by image) addon_image_patterns

abbrev add_match : Workload → String → Option (String × String) → Detection → Detection
add_match w image none d = d
add_match w image (some key) d = add_found w image key d

add_every-none :
    (ps : Dict String (List Piece)) (w : Workload) (image : String) (d : Detection)
    → length (filter (matched_by image) ps) ≤ 0
    → add_every ps w image d ≡ d
unfolding add_every filter
add_every-none [] w image d h = refl
add_every-none ((n, p) ∷ ps) w image d h = elim (Bool-cases (image_matches p image)) [
  | inl e ↦ elim (rw e at h) [ ]
  | inr e ↦ rw e (add_every-none ps w image d (rw e at h))
]

add_every-single :
    (ps : Dict String (List Piece)) (w : Workload) (image : String) (d : Detection)
    → length (filter (matched_by image) ps) ≤ 1
    → add_every ps w image d ≡ add_match w image (match_from ps image) d
unfolding add_every match_from filter
add_every-single [] w image d h = refl
add_every-single ((n, p) ∷ ps) w image d h = elim (Bool-cases (image_matches p image)) [
  | inl e ↦ rw e (add_every-none ps w image _ (omega (arith, rw e at h)))
  | inr e ↦ rw e (add_every-single ps w image d (rw e at h))
]

add_every-first :
    (w : Workload) (image : String) (d : Detection)
    → length (addons_of image) ≤ 1
    → add_every addon_image_patterns w image d ≡ add_first w image d
unfolding add_first match_addon
add_every-first w image d h =
    add_every-single addon_image_patterns w image d h
    ∙ add_match-first (match_from addon_image_patterns image)
  where
    add_match-first :
        (o : Option (String × String))
        → add_match w image o d ≡ elim o [ none ↦ d | some key ↦ add_found w image key d ]
    add_match-first none = refl
    add_match-first (some key) = refl

-- The images of the workloads each belong to one add-on at most.
abbrev pub Unambiguous : List Workload → Type 0
Unambiguous ws = All (λ w. All (λ image. length (addons_of image) ≤ 1) w.images) ws

read_images-agree :
    (w : Workload) (images : List String) (d : Detection)
    → All (λ image. length (addons_of image) ≤ 1) images
    → read_images (add_every addon_image_patterns) w images d ≡ read_images add_first w images d
unfolding read_images
read_images-agree w [] d h = refl
read_images-agree w (image ∷ images) d (h, hs) =
    rw (add_every-first w image d h) (read_images-agree w images (add_first w image d) hs)

read_workloads-agree :
    (ws : List Workload) (d : Detection)
    → Unambiguous ws
    → read_workloads (add_every addon_image_patterns) ws d ≡ read_workloads add_first ws d
unfolding read_workloads
read_workloads-agree [] d h = refl
read_workloads-agree (w ∷ ws) d (h, hs) =
    rw (read_images-agree w w.images d h) (read_workloads-agree ws _ hs)

read_workloads-append :
    (add : Workload → String → Detection → Detection) (vs ws : List Workload) (d : Detection)
    → read_workloads add (vs ++ ws) d ≡ read_workloads add ws (read_workloads add vs d)
unfolding read_workloads
read_workloads-append add [] ws d = refl
read_workloads-append add (v ∷ vs) ws d =
    read_workloads-append add vs ws (read_images add v v.images d)

-- Where both listings succeed and no image matches the patterns of two add-ons, the in-cluster and the
-- remote client detect the same add-ons, in the same order.
pub detect_addons-remote :
    (deployments daemonsets : List Workload)
    → Unambiguous deployments
    → Unambiguous daemonsets
    → detect_addons_remote (some deployments) (some daemonsets)
      ≡ detect_addons (some deployments) (some daemonsets)
unfolding detect_addons detect_addons_remote read_listings
detect_addons-remote deployments daemonsets h k =
    ap (λ (d : Detection). d.addons)
      (sym (read_workloads-append (add_every addon_image_patterns) deployments daemonsets _)
        ∙ read_workloads-agree (deployments ++ daemonsets) _
            (All-append _ deployments daemonsets h k))
