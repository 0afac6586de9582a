-- ===== src/Cve/Addons.antt =====
-- control-plane/app/addon_detection.py, and the loops over it: `detect_addons` of K8sClient in
-- k8s_client.py and of RemoteK8sClient in cve_service.py. The Kubernetes API is a parameter: a
-- listing is an argument, and `none` where the call raises.
pub mod Laws
use kaaval.Base.{
  ◌≡◌, refl, String, Bool, true, false, Option, none, some, List, [], ◌∷◌, ◌++◌, if◌then◌else◌,
  is_some, contains, string_eq, pair_eq, nat_beq,
}
use kaaval.Base.Dict.{Dict}
use kaaval.Base.Regex.{
  Piece, one, many, optional, choice, open_group, close_group, digit, this, literal, either_case,
  search_in, find_group,
}
use kaaval.Base.Text.{is_text, or_text}

-- A pattern of literals, whose case does not matter.
abbrev any_of : List String → List Piece
any_of names = choice names ∷ []

abbrev pub addon_image_patterns : Dict String (List Piece)
addon_image_patterns =
    ("ingress-nginx", any_of ("ingress-nginx/controller" ∷ []))
    ∷ ("csi-driver-nfs", any_of ("nfsplugin" ∷ "nfs-csi" ∷ "csi-driver-nfs" ∷ []))
    ∷ ("csi-driver-smb", any_of ("smbplugin" ∷ "smb-csi" ∷ "csi-driver-smb" ∷ []))
    ∷ ("metrics-server", any_of ("metrics-server" ∷ []))
    ∷ ("coredns", any_of ("coredns" ∷ []))
    ∷ []

-- `:v?([\d]+\.[\d]+\.[\d]+)`
abbrev pub image_version_re : List Piece
image_version_re =
    one (this ":")
    ∷ optional (this "v")
    ∷ open_group
    ∷ one digit
    ∷ many digit
    ∷ one (this ".")
    ∷ one digit
    ∷ many digit
    ∷ one (this ".")
    ∷ one digit
    ∷ many digit
    ∷ close_group
    ∷ []

unfoldable pub image_version : String → Option String
unfolding find_group
image_version image = find_group image_version_re image

-- `image_version(image) or "unknown"`
unfoldable pub version_or_unknown : String → String
unfolding image_version
version_or_unknown image = or_text (image_version image) "unknown"

-- `pattern.search(image)`
unfoldable pub image_matches : List Piece → String → Bool
unfolding search_in
image_matches pattern image = is_some (search_in pattern image)

-- The name of the first pattern that the image matches, with its version.
unfoldable pub match_from : Dict String (List Piece) → String → Option (String × String)
unfolding image_matches version_or_unknown
match_from [] image = none
match_from ((addon_name, pattern) ∷ patterns) image =
    let others = match_from patterns image in
    if image_matches pattern image then some (addon_name, version_or_unknown image) else others

unfoldable pub match_addon : String → Option (String × String)
unfolding match_from
match_addon image = match_from addon_image_patterns image

-- What is read of a Deployment or a DaemonSet; the images are those of the containers, and then those
-- of the init containers.
pub record Workload : Type 0 where
  pub namespace : String
  pub name : String
  pub images : List String

pub record AddonFound : Type 0 where
  pub name : String
  pub version : String
  pub namespace : String
  pub workload : String
  pub image : String

-- `addons` and `seen`
pub record Detection : Type 0 where
  pub addons : List AddonFound
  pub seen : List (String × String)

-- The body of `if key not in seen`.
unfoldable pub add_found : Workload → String → String × String → Detection → Detection
unfolding contains
add_found w image (addon_name, version) d =
    if contains d.seen (addon_name, version) then d else record {
      addons =
          d.addons
          ++ record {
            name = addon_name;
            version = version;
            namespace = w.namespace;
            workload = w.name;
            image = image;
          }
            ∷ [];
      seen = (addon_name, version) ∷ d.seen;
    }

-- K8sClient: the first add-on of an image.
unfoldable pub add_first : Workload → String → Detection → Detection
unfolding match_addon add_found
add_first w image d = elim (match_addon image) [ none ↦ d | some key ↦ add_found w image key d ]

-- RemoteK8sClient: every add-on of an image.
unfoldable pub add_every : Dict String (List Piece) → Workload → String → Detection → Detection
unfolding add_found image_matches version_or_unknown
add_every [] w image d = d
add_every ((addon_name, pattern) ∷ patterns) w image d = add_every patterns w image (
    if image_matches pattern image
    then add_found w image (addon_name, version_or_unknown image) d
    else d)

-- The loops over the containers and over the workloads, for the body of either client.
module _ (add : Workload → String → Detection → Detection) where
  unfoldable pub read_images : Workload → List String → Detection → Detection
  read_images w [] d = d
  read_images w (image ∷ images) d = read_images w images (add w image d)

  unfoldable pub read_workloads : List Workload → Detection → Detection
  unfolding read_images
  read_workloads [] d = d
  read_workloads (w ∷ ws) d = read_workloads ws (read_images w w.images d)

  -- A listing that raises is skipped.
  unfoldable pub read_listings : List (Option (List Workload)) → Detection → Detection
  unfolding read_workloads
  read_listings [] d = d
  read_listings (none ∷ listings) d = read_listings listings d
  read_listings (some ws ∷ listings) d = read_listings listings (read_workloads ws d)

abbrev nothing_found : Detection
nothing_found = record { addons = []; seen = [] }

-- K8sClient.detect_addons: `none` is the ApiException of either call.
unfoldable pub detect_addons : Option (List Workload) → Option (List Workload) → List AddonFound
unfolding read_workloads add_first
detect_addons none daemonsets = []
detect_addons (some deployments) none = []
detect_addons (some deployments) (some daemonsets) =
    (read_workloads add_first (deployments ++ daemonsets) nothing_found).addons

-- RemoteK8sClient.detect_addons
unfoldable pub detect_addons_remote :
    Option (List Workload) → Option (List Workload) → List AddonFound
unfolding read_listings add_every
detect_addons_remote deployments daemonsets =
    let d =
      read_listings (add_every addon_image_patterns) (deployments ∷ daemonsets ∷ [])
        nothing_found in
    d.addons

match_addon_test :
    match_addon "registry.k8s.io/ingress-nginx/Controller:v1.9.4@sha256:00"
    ≡ some ("ingress-nginx", "1.9.4")
unfolding match_addon image_matches version_or_unknown search_in find_group
match_addon_test = refl

unknown_test : match_addon "k8s.gcr.io/coredns:latest" ≡ some ("coredns", "unknown")
unfolding match_addon image_matches version_or_unknown search_in find_group
unknown_test = refl
