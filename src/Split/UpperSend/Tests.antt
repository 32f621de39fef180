-- ===== src/Split/UpperSend/Tests.antt =====
-- The loop of `upper_send` on a message of one slice.
use ipcf.Common.{ℕ, ◌<◌, ◌≡◌, some, List, [], ◌∷◌, arith, replicate}
use ipcf.Split.Types.{Env, link_data_max}
use ipcf.Split.Slice.{fill_slices}
use ipcf.Split.Slice.Layout.{all_bytes}
use ipcf.Split.UpperSend.{Built, build_loop}
use ipcf.Split.UpperSend.Build.{BuiltOf, Ends, build_loop_lem}

abbrev env : Env
env = record { now = 5; stale = replicate 1000 0; info_level = 1 }

abbrev msg : List ℕ
msg = 0xc0 ∷ 7 ∷ []

abbrev slices : List ℕ
slices = all_bytes (fill_slices link_data_max msg).slices

build_loop_lem_example :
    ((g : ℕ)
      → 1 < g
      → build_loop env 1 2 0 msg slices g 1 2 ≡ build_loop env 1 2 0 msg slices 2 1 2)
    × ((b : Built)
        → build_loop env 1 2 0 msg slices 2 1 2 ≡ some b
        → BuiltOf env 1 2 0 msg slices 1 b)
    × Ends env 1 2 0 msg slices 1 2 (build_loop env 1 2 0 msg slices 2 1 2)
build_loop_lem_example = build_loop_lem env 1 2 0 msg slices 2 1 2 (omega arith)
