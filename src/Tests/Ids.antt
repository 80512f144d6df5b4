-- ===== src/Tests/Ids.antt =====
-- Two generators that make the same id, and one that makes two different ones.
use cache_system_of_lease_me.Base.{◌<◌, ◌≡◌, ◌≢◌, ◌^◌, arith}
use cache_system_of_lease_me.SnowFlake.{new_snow_flake, generate_uniform_id}
use cache_system_of_lease_me.SnowFlake.Distinct.{id_at, generate_uniform_id_distinct}
use cache_system_of_lease_me.SnowFlake.Clash.{generate_uniform_id_clash}

generate_uniform_id_clash_example :
    generate_uniform_id 1559000000000 (new_snow_flake 5 3)
    ≡ generate_uniform_id 1559000000000 (new_snow_flake 6 40)
generate_uniform_id_clash_example =
    generate_uniform_id_clash 1 1 2 3 40 1559000000000 (omega arith) (omega arith) (omega arith)
      (omega arith) (omega arith)

generate_uniform_id_distinct_example :
    (id_at (λ i. 1559000000000) 3 (new_snow_flake 5 3)
      ≢ id_at (λ i. 1559000000000) 4098 (new_snow_flake 5 3))
    × (id_at (λ i. 1559000000000) 3 (new_snow_flake 5 3) < 2 ^ 64)
generate_uniform_id_distinct_example =
    generate_uniform_id_distinct (λ i. 1559000000000) 5 3 3 4098 (omega arith) (omega arith)
      (omega arith) (omega arith)
