-- ===== src/Queue/Utils/Tests.antt =====
-- A concrete array.
use rdma_project.Common.{◌+◌, ◌≡◌, refl, none, replicate}
use rdma_project.Queue.Utils.{generate_random_data}
use rdma_project.Queue.Utils.Bounds.{generate_random_data_out_of_bounds}

generate_random_data_out_of_bounds_example :
    generate_random_data (λ k. 65 + k) 0 (λ n. replicate n 0) 4 ≡ none
generate_random_data_out_of_bounds_example =
    generate_random_data_out_of_bounds (λ k. 65 + k) 0 (λ n. replicate n 0) 4 refl
