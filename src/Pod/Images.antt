-- ===== src/Pod/Images.antt =====
-- SamePodImages: whether two versions of a pod have the same images.
use scam.Base.{Bool, true, ◌&&◌, List, [], ◌∷◌, Text, length, if◌then◌else◌, nat_eq, text_eq, ◌==◌}
use scam.Kube.{Container, ContainerStatus, Pod}

-- The image id of the first status with the name. sameImageIDs looks it up the same way.
unfoldable pub status_image_id : List ContainerStatus → Text → Text
status_image_id [] name = []
status_image_id (s ∷ ss) name = if s.name == name then s.image_id else status_image_id ss name

-- The loop over the containers of one class, which have the same length.
unfoldable pub same_specs : List Container → List Container → Bool
same_specs (a ∷ as') (b ∷ bs) = a.name == b.name && a.image == b.image && same_specs as' bs
same_specs _ _ = true

unfoldable pub all_found : List ContainerStatus → List ContainerStatus → Bool
all_found [] b = true
all_found (s ∷ ss) b = s.image_id == status_image_id b s.name && all_found ss b

unfoldable pub same_image_ids : List ContainerStatus → List ContainerStatus → Bool
same_image_ids a b = length a == length b && all_found a b

unfoldable pub same_pod_images : Pod → Pod → Bool
same_pod_images a b =
    a.status.phase == b.status.phase
    && (length a.spec.init_containers == length b.spec.init_containers
        && length a.spec.containers == length b.spec.containers
        && length a.spec.ephemeral_containers == length b.spec.ephemeral_containers)
    && same_specs a.spec.init_containers b.spec.init_containers
    && same_specs a.spec.containers b.spec.containers
    && same_specs a.spec.ephemeral_containers b.spec.ephemeral_containers
    && same_image_ids a.status.init_container_statuses b.status.init_container_statuses
    && same_image_ids a.status.container_statuses b.status.container_statuses
    && same_image_ids a.status.ephemeral_container_statuses b.status.ephemeral_container_statuses
