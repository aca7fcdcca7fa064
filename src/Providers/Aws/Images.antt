-- ===== src/Providers/Aws/Images.antt =====
-- pkg/cloudprovider/provider/aws/provider.go: getDefaultAMIID, the newest image for an operating
-- system. The lock makes it one step for other goroutines; the cache is an answer.
use machine_controller.Base.{concat, ltb, if◌then◌else◌, String, Option, none, some, List, [], ◌∷◌}
use machine_controller.Outcome.{
  new_error, ok, Act, pure, raise, call, deref, tell, on_option, ◌>>=◌, ◌>>◌,
}
use machine_controller.Providers.Aws.{
  AmiFilter, ami_filters, Image, Request, describe_images, cache_get, cache_set, Cloud,
}

module _ (c : Cloud) where
  -- `vtime.After(itime)`; none where a date is nil
  unfoldable pub later_of : Image → Image → Option Image
  later_of image v = elim image.creation_date [
    | none ↦ none
    | some itime ↦ elim v.creation_date [
      | none ↦ none
      | some vtime ↦ some (if ltb (c.parse_time itime) (c.parse_time vtime) then v else image)
    ]
  ]

  -- The loop over all images
  unfoldable pub newest : Image → List Image → Option Image
  newest image [] = some image
  newest image (v ∷ vs) = elim (later_of image v) [ none ↦ none | some x ↦ newest x vs ]

  abbrev pub cache_key : String → String → String
  cache_key region os = concat "ami-id-" (concat region (concat "-" os))

  unfoldable pub newest_of : List Image → Act Request Image
  newest_of [] = raise (new_error "could not find Image")
  newest_of (image ∷ images) = deref (newest image (image ∷ images))

  unfoldable pub find_default_ami_id : AmiFilter → String → Act Request String
  find_default_ami_id filter key = do
    images ← call (describe_images filter) (λ s. c.images s filter)
    image ← newest_of images
    id ← deref image.image_id
    tell (cache_set key id)
    pure id

  unfoldable pub get_default_ami_id : String → String → Act Request String
  get_default_ami_id os region = do
    filter ← on_option (ami_filters os) (raise (new_error "operating system not supported")) pure
    let key = cache_key region os
    found ← call (cache_get key) (λ s. ok (c.cached s key))
    on_option found (find_default_ami_id filter key) pure
