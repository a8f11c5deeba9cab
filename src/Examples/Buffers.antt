-- ===== src/Examples/Buffers.antt =====
-- wayland/impl/wayland.c and xdg-shell.c: a buffer in shared memory, and a popup.
use cuts.Base.{◌≡◌, refl, none, some, [], ◌∷◌, arith, ◌==◌, if◌then◌else◌, ok, pos, negsuc}
use cuts.Util.Mem.{Metadata}
use cuts.Util.Map.{Map}
use cuts.Util.Bitmap.{Bitmap}
use cuts.Wayland.Objects.{object_add}
use cuts.Wayland.Receive.{CallbackInterface}
use cuts.Wayland.Impl.State.{ShmPool}
use cuts.Wayland.Impl.World.{Wl, give_reference}
use cuts.Wayland.Impl.Shm.{check_region, make_buffer}
use cuts.Wayland.Impl.Shm.Region.{verdict, check_region_lem, check_region_below}
use cuts.Wayland.Impl.Shm.Release.{buffer_of}
use cuts.Wayland.Impl.Shm.Life.{IsReady, IsReleased, image_of, make_buffer-give_reference}
use cuts.Wayland.Impl.Positioner.{edge_of, calc_popup_coords}
use cuts.Wayland.Impl.Positioner.Place.{Given, positioner_of, place_of, calc_popup_coords_lem}
use cuts.Examples.Surfaces.{server, world}

check_region_lem_example :
    check_region 4096 (pos 96) (pos 10) (pos 400) ≡ ok (verdict 4096 96 10 400)
check_region_lem_example =
    check_region_lem 4096 96 10 400 (omega arith) (omega arith) (omega arith) (omega arith)
      (omega arith)

-- A region that begins 50 bytes before the pool
check_region_below_example : check_region 4096 (negsuc 49) (pos 10) (pos 400) ≡ ok none
check_region_below_example =
    check_region_below 4096 49 10 400 (omega arith) (omega arith) (omega arith) refl (omega arith)

abbrev held : Metadata
held = record { ref_count = 1; defer = none }

abbrev pool : ShmPool
pool = record { fd = 3; ptr = 9000; size = 4096 }

-- The pool at 30, and free blocks at 20 and 21
abbrev with_pool : Wl
with_pool = record server {
  world = record world {
    memory = record { metadata = λ a. if a == 30 then some held else none; deferred = [] };
    free_addresses = 20 ∷ 21 ∷ [];
    pools = λ a. if a == 30 then some pool else none;
  };
}

abbrev buffer_interface : CallbackInterface
buffer_interface = record { address = 700; version = 1 }

with_pool-IsReady : IsReady 30 20 21 [] held pool with_pool
with_pool-IsReady = record {
  fresh = refl;
  b_positive = omega arith;
  raw_positive = omega arith;
  apart = λ e. omega arith;
  pool_apart = λ e. omega arith;
  pool_apart' = λ e. omega arith;
  counted = refl;
  stored = refl;
}

make_buffer-give_reference_example :
    (s' s'' : Wl) × (make_buffer 1 2 buffer_interface 9 30 0
        (pos 96)
        (pos 100)
        (pos 10)
        (pos 400)
        with_pool
      ≡ ok (pos 0, s'))
    × (s'.world.buffers 20 ≡ some (buffer_of 30 21))
    × (s'.world.rawbufs 21 ≡ some (image_of 1 2 0 (pos 96) (pos 100) (pos 10) (pos 400) pool))
    × (give_reference 20 s' ≡ ok s'')
    × IsReleased 30 20 21 held s''
unfolding object_add cuts.Util.Map.get cuts.Util.Bitmap.set cuts.Util.Map.set
make_buffer-give_reference_example =
    make_buffer-give_reference 1 2 buffer_interface 9 0 (pos 96) (pos 100) (pos 10) (pos 400)
      with_pool-IsReady (omega arith) (omega arith) refl

-- A menu of 200 by 300 below the left corner of a button
abbrev menu : Given
menu = record {
  anchor = 6;
  gravity = 8;
  constraint_adjustment = 0;
  x = negsuc 1;
  y = pos 3;
  width = 200;
  height = 300;
  rect_x = pos 10;
  rect_y = negsuc 19;
  rect_width = 50;
  rect_height = 30;
}

calc_popup_coords_lem_example : calc_popup_coords (positioner_of menu) ≡ ok (place_of menu)
unfolding edge_of
calc_popup_coords_lem_example = calc_popup_coords_lem menu record {
  anchor = refl;
  gravity = refl;
  width = omega arith;
  height = omega arith;
  across = record { moved = refl; anchored = refl; whole = refl };
  down = record { moved = refl; anchored = refl; whole = refl };
}

menu_place : place_of menu ≡ (pos 8, pos 13)
unfolding edge_of
menu_place = refl
