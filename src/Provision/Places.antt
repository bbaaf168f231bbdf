-- ===== src/Provision/Places.antt =====
-- Where the files of a provisioned root are: the paths of python/src/spiffile/provision.py.
use spiffile.Prelude.{
  Text, true, false, some, List, [], ◌∷◌, ◌++◌, ◌≡◌, ◌≢◌, refl, sym, ap, ◌∙◌, arith, All, split,
  split_first, append-nil, strip_prefix, strip_prefix-append, partition, partition-append,
  partition-Lacks, join_behind, split-join_behind, text_eq,
}
use spiffile.Prelude.Value.{str}
use spiffile.Disk.{FilePath, path, clean, ◌//◌, Location, Disk, locate}
use spiffile.Disk.Paths.{IsPart, clean-All, Starts-append, leading-slashes}
use spiffile.Disk.Locate.{
  Steps, IsDirect, descend, descend-one, place, locate-IsDirect, IsBelow, //-IsDirect, place-//,
}
use spiffile.Errors.{ok}
use spiffile.SpiffeId.{SpiffeId, parse, to_str, scheme}
use spiffile.SpiffeId.Grammar.{
  IsDomain, IsSegment, IsTrustDomainChar-Lacks, IsSegmentChar-Lacks, IsSegment-Lacks,
}
use spiffile.SpiffeId.Parsing.{parse_iff}
use spiffile.Provision.{bundle_filename, services_dirname, id_filename, key_filename, service_dir}

-- The name of a service: the segments of a path.
pub record IsName (name : Text) (segments : List Text) : Type 0 where
  pub below : IsBelow name segments
  pub each : All IsSegment segments
  pub nonempty : segments ≢ []

AllSegments-AllParts : (ss : List Text) → All IsSegment ss → All IsPart ss
AllSegments-AllParts [] h = tt
AllSegments-AllParts (s ∷ ss) (h, hs) = (
  record { nonempty = h.nonempty; not_dot = h.not_dot; no_slash = IsSegmentChar-Lacks s h.chars },
  AllSegments-AllParts ss hs,
)

AllSegments-Steps : (ss : List Text) → All IsSegment ss → Steps ss
AllSegments-Steps [] h = tt
AllSegments-Steps (s ∷ ss) (h, hs) = (h.not_dot_dot, AllSegments-Steps ss hs)

path-join_behind :
    (s : Text) (ss : List Text)
    → All IsSegment (s ∷ ss)
    → path (s ++ join_behind b'/' ss) ≡ record { root = 0; parts = s ∷ ss }
unfolding path
path-join_behind s ss h =
    let lacks = IsSegmentChar-Lacks s h.0.chars in
    rw
      (
        leading-slashes 0 (s ++ join_behind b'/' ss) (omega arith)
            (Starts-append s (join_behind b'/' ss) h.0.nonempty lacks),
        split-join_behind b'/' s ss lacks (IsSegment-Lacks ss h.1),
        clean-All (s ∷ ss) (AllSegments-AllParts (s ∷ ss) h),
      )
      refl

append-cancel : (p : Text) {s t : Text} → p ++ s ≡ p ++ t → s ≡ t
append-cancel p {s} {t} e =
    some-inj (sym (strip_prefix-append p s) ∙ ap (strip_prefix p) e ∙ strip_prefix-append p t)
  where
    some-inj : {a b : Text} → some a ≡ some b → a ≡ b
    some-inj h = cc

-- What `parse` has found of the text `spiffe://<trust domain>/<name>`.
pub record Named (td name : Text) (id : SpiffeId) : Type 0 where
  pub segments : List Text
  pub in_domain : id.trust_domain ≡ td
  pub is_name : IsName name segments

name_of :
    (td name : Text) (id : SpiffeId) (segments : List Text)
    → IsDomain td
    → IsDomain id.trust_domain
    → All IsSegment segments
    → td ++ b'/' ∷ name ≡ id.trust_domain ++ join_behind b'/' segments
    → Named td name id
name_of td name id [] domain own each e =
    let left = partition-append b'/' td name (IsTrustDomainChar-Lacks td domain.chars) in
    let right = partition-Lacks b'/' id.trust_domain (IsTrustDomainChar-Lacks _ own.chars) in
    let parts = sym left ∙ ap (partition b'/') (e ∙ append-nil id.trust_domain) ∙ right in
    let differs : true ≡ false = ap (λ x. x.1) parts in absurd (cc)
name_of td name id (s ∷ ss) domain own each e =
    let left = partition-append b'/' td name (IsTrustDomainChar-Lacks td domain.chars) in
    let right =
      partition-append b'/' id.trust_domain (s ++ join_behind b'/' ss)
        (IsTrustDomainChar-Lacks _ own.chars) in
    let parts = sym right ∙ ap (partition b'/') (sym e) ∙ left in
    let is_name : s ++ join_behind b'/' ss ≡ name = ap (λ x. x.2) parts in
    record {
      segments = s ∷ ss;
      in_domain = ap (λ x. x.0) parts;
      is_name = record {
        below = record {
          is_path = rw (sym is_name) (path-join_behind s ss each);
          steps = AllSegments-Steps (s ∷ ss) each;
        };
        each = each;
        nonempty = λ h. cc;
      };
    }

pub parse-Named :
    (td name : Text) (id : SpiffeId)
    → IsDomain td
    → parse (str (scheme ++ (td ++ b'/' ∷ name))) ≡ ok id
    → Named td name id
unfolding to_str
parse-Named td name id domain e =
    let (same, valid) = (parse_iff (str (scheme ++ (td ++ b'/' ∷ name))) id).0 e in
    name_of td name id valid.segments domain valid.domain valid.each
      (append-cancel scheme (str-inj same) ∙ ap (λ p. id.trust_domain ++ p) valid.path_is)
  where
    str-inj : {s t : Text} → str s ≡ str t → s ≡ t
    str-inj h = cc

-- The names of the files are paths of one part.
pub bundle-IsBelow : IsBelow bundle_filename (bundle_filename ∷ [])
unfolding path clean split split_first text_eq
bundle-IsBelow = record { is_path = refl; steps = (λ e. cc, tt) }

pub services-IsBelow : IsBelow services_dirname (services_dirname ∷ [])
unfolding path clean split split_first text_eq
services-IsBelow = record { is_path = refl; steps = (λ e. cc, tt) }

pub id-IsBelow : IsBelow id_filename (id_filename ∷ [])
unfolding path clean split split_first text_eq
id-IsBelow = record { is_path = refl; steps = (λ e. cc, tt) }

pub key-IsBelow : IsBelow key_filename (key_filename ∷ [])
unfolding path clean split split_first text_eq
key-IsBelow = record { is_path = refl; steps = (λ e. cc, tt) }

locate-below :
    (d : Disk) (p : FilePath) (text : Text) (parts : List Text)
    → IsBelow text parts
    → IsDirect p
    → locate d (p // text) ≡ ok (descend parts (place d.cwd p))
locate-below d p text parts below h =
    locate-IsDirect d (p // text) (//-IsDirect p text parts below h)
    ∙ ap ok (place-// d.cwd p text parts below)

pub locate-bundle :
    (d : Disk) (root : FilePath)
    → IsDirect root
    → locate d (root // bundle_filename) ≡ ok (bundle_filename ∷ place d.cwd root)
locate-bundle d root direct =
    locate-below d root bundle_filename (bundle_filename ∷ []) bundle-IsBelow direct
    ∙ ap ok (descend-one bundle_filename (place d.cwd root))

-- The folder of a service, for the location of the root.
abbrev pub service_at : Location → List Text → Location
service_at root_at segments = descend segments (services_dirname ∷ root_at)

module _ (d : Disk) (root : FilePath) (name : Text) (segments : List Text) (direct : IsDirect root)
    (is_name : IsName name segments) where
  services-IsDirect : IsDirect (root // services_dirname)
  services-IsDirect =
      //-IsDirect root services_dirname (services_dirname ∷ []) services-IsBelow direct

  pub service_dir-IsDirect : IsDirect (service_dir root name)
  unfolding service_dir
  service_dir-IsDirect =
      //-IsDirect (root // services_dirname) name segments is_name.below services-IsDirect

  pub place-service_dir :
      place d.cwd (service_dir root name) ≡ service_at (place d.cwd root) segments
  unfolding service_dir
  place-service_dir =
      place-// d.cwd (root // services_dirname) name segments is_name.below
      ∙ ap (descend segments) (
          place-// d.cwd root services_dirname (services_dirname ∷ []) services-IsBelow
          ∙ descend-one services_dirname (place d.cwd root))

  pub locate-service_dir :
      locate d (service_dir root name) ≡ ok (service_at (place d.cwd root) segments)
  locate-service_dir =
      locate-IsDirect d (service_dir root name) service_dir-IsDirect ∙ ap ok place-service_dir

  pub locate-service_file :
      (filename : Text)
      → IsBelow filename (filename ∷ [])
      → locate d (service_dir root name // filename)
        ≡ ok (filename ∷ service_at (place d.cwd root) segments)
  locate-service_file filename below =
      locate-below d (service_dir root name) filename (filename ∷ []) below service_dir-IsDirect
      ∙ ap ok (
          descend-one filename (place d.cwd (service_dir root name))
          ∙ ap (λ here. filename ∷ here) place-service_dir)

-- The files of a service, on every disk with the working directory.
module _ (cwd : Location) (root : FilePath) (name : Text) (segments : List Text)
    (direct : IsDirect root) (is_name : IsName name segments) (d : Disk) (same : d.cwd ≡ cwd) where
  pub bundle_place : locate d (root // bundle_filename) ≡ ok (bundle_filename ∷ place cwd root)
  bundle_place = rw (← same) (locate-bundle d root direct)

  pub dir_place : locate d (service_dir root name) ≡ ok (service_at (place cwd root) segments)
  dir_place = rw (← same) (locate-service_dir d root name segments direct is_name)

  pub key_place :
      locate d (service_dir root name // key_filename)
      ≡ ok (key_filename ∷ service_at (place cwd root) segments)
  key_place =
      rw (← same) (locate-service_file d root name segments direct is_name key_filename key-IsBelow)

  pub id_place :
      locate d (service_dir root name // id_filename)
      ≡ ok (id_filename ∷ service_at (place cwd root) segments)
  id_place =
      rw (← same) (locate-service_file d root name segments direct is_name id_filename id-IsBelow)
