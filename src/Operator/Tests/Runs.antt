-- ===== src/Operator/Tests/Runs.antt =====
-- The allowlist, the bundles and the start of the process on concrete inputs.
use k8s_buddy.Common.{
  ◌≡◌, refl, ◌↔◌, ℕ, String, Bool, true, false, Option, none, List, [], ◌∷◌, map, ℤ, pos, Result,
  ok, err, str_eq, if◌then◌else◌,
}
use k8s_buddy.Common.Texts.{join_commas, is_space}
use k8s_buddy.Common.Texts.Parts.{IsPart, has_comma, begins_blank, ends_blank}
use k8s_buddy.Plant.Webhook.{default_allowed_image_registries}
use k8s_buddy.Controller.Types.{ApiError, not_found}
use k8s_buddy.Operator.Flags.{parse_allowed_image_registries, allowed_image_registries}
use k8s_buddy.Operator.Flags.Registries.{
  only_separators, parse_allowed_image_registries-join_commas, parse_allowed_image_registries-nil,
}
use k8s_buddy.Operator.Bundle.{Block, Kept, retained, merge_ca_bundle}
use k8s_buddy.Operator.Bundle.Counting.{count}
use k8s_buddy.Operator.Bundle.Reading.{blocks_of}
use k8s_buddy.Operator.Bundle.Retained.{IsBundle, retained-IsBundle}
use k8s_buddy.Operator.Bundle.Again.{blocks_of-merge_ca_bundle}
use k8s_buddy.Operator.Patch.{Configuration, Direct, Attempt, patch_once, patch_webhook_ca_bundles}
use k8s_buddy.Operator.Serving.{Crypto, ca_template}
use k8s_buddy.Operator.Bootstrap.{StartError, bootstrap}
use k8s_buddy.Operator.Bootstrap.Ready.{Ready, bootstrap-Ready}
use k8s_buddy.Operator.Tests.Coder.{pem, pem-SortsByIssue, pem-IsPem}

ghcr : IsPart "ghcr.io/"
unfolding has_comma begins_blank ends_blank is_space
ghcr = record { full = refl; whole = refl; starts = refl; ends = refl }

docker : IsPart "docker.io/library/"
unfolding has_comma begins_blank ends_blank is_space
docker = record { full = refl; whole = refl; starts = refl; ends = refl }

parse_allowed_image_registries-join_commas_example :
    parse_allowed_image_registries (join_commas default_allowed_image_registries)
    ≡ default_allowed_image_registries
parse_allowed_image_registries-join_commas_example =
    parse_allowed_image_registries-join_commas default_allowed_image_registries (ghcr, (docker, tt))

parse_allowed_image_registries-nil_example :
    (parse_allowed_image_registries " , " ≡ []) ↔ (only_separators " , " ≡ true)
parse_allowed_image_registries-nil_example = parse_allowed_image_registries-nil " , "

unset_test : allowed_image_registries (λ k. none) none ≡ default_allowed_image_registries
unfolding allowed_image_registries is_space
unset_test = refl

abbrev block : String → Block
block bytes = record { type = "CERTIFICATE"; headers = []; bytes = bytes }

abbrev existing : List Block
existing = block "old" ∷ block "rolling" ∷ block "not a certificate" ∷ []

abbrev new_ca : List Block
new_ca = block "new" ∷ []

merge_test : merge_ca_bundle pem (pos 20) existing new_ca ≡ block "new" ∷ block "rolling" ∷ []
unfolding merge_ca_bundle
merge_test = refl

retained-IsBundle_example :
    IsBundle pem (pos 20) existing new_ca (retained pem (pos 20) existing new_ca)
retained-IsBundle_example = retained-IsBundle pem (pos 20) existing new_ca pem-SortsByIssue

plain :
    count
      (λ e. elim e.block.headers [ [] ↦ false | ◌∷◌ h hs ↦ true ])
      (retained pem (pos 20) existing new_ca)
    ≡ 0
unfolding count retained
plain = refl

blocks_of-merge_ca_bundle_example :
    blocks_of pem (merge_ca_bundle pem (pos 20) existing new_ca)
    ≡ map (λ e. e.block) (retained pem (pos 20) existing new_ca)
blocks_of-merge_ca_bundle_example =
    blocks_of-merge_ca_bundle pem pem-IsPem (pos 20) existing new_ca plain

abbrev none_kept : Kept
none_kept = record { seen = []; entries = [] }

-- A cluster that has the two configurations once it was asked.
abbrev Stored : Type 0
Stored = Configuration (List Block) (Unit {0})

pub record Cluster : Type 0 where
  pub there : Bool
  pub mutating : Stored
  pub validating : Stored

abbrev get : String → Cluster → Result ApiError Stored × Cluster
get kind w =
    if w.there
    then (ok (if str_eq kind "MutatingWebhookConfiguration" then w.mutating else w.validating), w)
    else (err not_found, record w { there = true })

abbrev update : String → Stored → Cluster → Option ApiError × Cluster
update kind o w = (
  none,
  if str_eq kind "MutatingWebhookConfiguration"
      then record w { mutating = o }
      else record w { validating = o },
)

abbrev direct : Direct Cluster (List Block) (Unit {0})
direct = record {
  new_client = λ w. (none, w);
  get = λ kind name w. get kind w;
  update = update;
  now = λ w. (pos 20, w);
  wait = λ d w. (true, w);
}

abbrev stored : String → Stored
stored name = record {
  name = name;
  webhooks = (record { ca_bundle = existing; others = tt }) ∷ [];
  others = tt;
}

abbrev cluster : Bool → Cluster
cluster there = record { there = there; mutating = stored "m"; validating = stored "v" }

abbrev attempt : Cluster → Attempt × Cluster
attempt w = patch_once pem direct new_ca "MutatingWebhookConfiguration" "m" w

abbrev crypto : Crypto Cluster ℕ String (List Block)
crypto = record {
  generate_key = λ w. (ok 7, w);
  random_serial = λ w. (ok 8, w);
  now = λ w. (pos 20, w);
  create_certificate = λ template parent public signer w. (ok "new", w);
  parse_certificate = λ der. ok (ca_template 8 (pos 20));
  marshal_key = λ k. ok "key";
  encode = λ t d. (record { type = t; headers = []; bytes = d }) ∷ [];
  mkdir_all = λ dir w. (none, w);
  write_file = λ path p w. (none, w);
  join_path = λ dir name. name;
}

abbrev start : Cluster → Result StartError ℤ × Cluster
start w = bootstrap crypto pem direct "/certs" "plant-operator-webhook" "k8s-buddy-system" "m" "v" w

abbrev until : ℤ
until = pos 315_360_000_000_000_020

starts : start (cluster true) ≡ (ok until, (start (cluster true)).1)
unfolding bootstrap patch_webhook_ca_bundles
starts = refl

bootstrap-Ready_example :
    Ready crypto pem direct "/certs" "plant-operator-webhook" "k8s-buddy-system" "m" "v" until
      (start (cluster true)).1
bootstrap-Ready_example =
    bootstrap-Ready crypto pem direct "/certs" "plant-operator-webhook" "k8s-buddy-system" "m" "v"
      (cluster true) (start (cluster true)).1 until starts
