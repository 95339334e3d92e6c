-- ===== src/Client/Transfer/Tests.antt =====
-- A range of four bytes over both stripes.
use ram_vram_sharing.Prelude.{ℕ, ◌+◌, ◌≡◌, refl, true, some, List, [], ◌∷◌, arith}
use ram_vram_sharing.Memory.Raw.{ok}
use ram_vram_sharing.Memory.Protocol.{denied}
use ram_vram_sharing.Client.Link.{World, Link, response}
use ram_vram_sharing.Client.Transfer.Blind.{write_remote_heard}
use ram_vram_sharing.Client.Remote.{striped, placed_as}
use ram_vram_sharing.Client.Remote.Placed.{Tiles}
use ram_vram_sharing.Client.Transfer.{write_remote, read_remote, zeros}
use ram_vram_sharing.Client.Transfer.Coverage.{write_each, write_remote-write_each}
use ram_vram_sharing.Client.Transfer.Gather.{read_each, read_remote-read_each}
use ram_vram_sharing.Client.Sample.{granting, granted, link, stripes}

abbrev bytes : List ℕ
bytes = 1 ∷ 2 ∷ 3 ∷ 4 ∷ []

stripes-Tiles : Tiles 0 6 stripes
stripes-Tiles = (refl, omega arith, (refl, omega arith, refl))

write_remote-write_each_example :
    write_remote granting (placed_as 6 (striped stripes)) 1 bytes link
    ≡ some (write_each granting stripes 1 bytes link)
write_remote-write_each_example =
    write_remote-write_each granting 6 stripes 1 bytes link stripes-Tiles (omega arith)

read_remote-read_each_example :
    read_remote granting (placed_as 6 (striped stripes)) 1 4 true link
    ≡ some (read_each granting stripes 1 4 true (zeros 4) link)
read_remote-read_each_example =
    read_remote-read_each granting 6 stripes 1 4 true link stripes-Tiles (omega arith)

-- Both peers refuse every request.
abbrev refusing : World ℕ
refusing = record granting {
  call = λ peer req n. (n + 1, response (record (granted req) { status = denied }));
}

write_remote_heard_example :
    (l' : Link ℕ) × (write_remote refusing (placed_as 6 (striped stripes)) 1 bytes link
      ≡ some (l', ok tt))
write_remote_heard_example =
    write_remote_heard refusing 6 stripes 1 bytes link stripes-Tiles (omega arith)
      λ peer req w e. ground arith
