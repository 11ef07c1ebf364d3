-- ===== src/Devfs/Register.antt =====
-- `devfs_register` and `devfs_lookup` of file_system/devfs/devfs.c, and the reads of what they find.
use acorn_os.Devfs.Names.{kstreq-kstrcpy, length-kstrcpy}
use acorn_os.Vfs.Mounts.{Superblock, vfs_find_mount}
use acorn_os.Vfs.Mounts.{Superblock, vfs_find_mount}
use acorn_os.Vfs.Files.{World, fail}
use acorn_os.Heap.{kmalloc}
use acorn_os.Strings.{c_string, kstreq, kstrcpy}
use acorn_os.Vfs.Files.{World}
use acorn_os.Devfs.{
  fail, vfs_type_file, devfs_max_devices, ReadHandler, WriteHandler, Device, DevInode, DevFs,
  devfs_register, add_device, sizeof_devfs_inode, sizeof_inode, vfs_max_name, new_inode, no_device,
  devfs_create_inode, find_device,
}
use acorn_os.Common.{
  true_is_not_false, IfSome, IfSome-bind, IfSome-map, IfSome-mono, get_or-set_self, get_or-set_ne,
}
use acorn_os.Common.{
  ℕ, zero, suc, ◌+◌, ◌≤◌, ◌<◌, ◌≡◌, refl, sym, ap, ap₂, ◌∙◌, subst, ◌≢◌, inl, inr, true, false,
  Option, none, some, List, arith, leb, ◌==◌, if◌then◌else◌, ==_iff, ==_refl, Bool-cases,
  Option-cases, length, get_or, set, length-set, add32, update,
}
use acorn_os.Common.{
  ℕ, zero, suc, ◌+◌, ◌≤◌, ◌<◌, ◌≡◌, refl, sym, ap, ap₂, ◌∙◌, subst, ◌≢◌, inl, inr, true, false,
  Option, none, some, List, arith, leb, ◌==◌, if◌then◌else◌, ==_iff, ==_refl, Bool-cases,
  Option-cases, length, get_or, set, length-set, add32, update,
}
use acorn_os.Common.Int.{ℤ, pos, negsuc}
use acorn_os.Common.{
  ℕ, zero, suc, ◌+◌, ◌≤◌, ◌<◌, ◌≡◌, refl, sym, ap, ap₂, ◌∙◌, subst, ◌≢◌, inl, inr, true, false,
  Option, none, some, List, arith, leb, ◌==◌, if◌then◌else◌, ==_iff, ==_refl, Bool-cases,
  Option-cases, length, get_or, set, length-set, add32, update,
}
use acorn_os.Common.{
  ℕ, zero, suc, ◌+◌, ◌≤◌, ◌<◌, ◌≡◌, refl, ap, ◌∙◌, inl, inr, Option, none, some, List, arith,
  if◌then◌else◌, ==_refl, Bool-cases, length, get_or, set, update,
}

update_self : (f : ℕ → DevInode) (i : ℕ) (v : DevInode) → update f i v i ≡ v
update_self f i v = rw (==_refl i) refl

fail_is_not_zero : fail ≢ pos 0
fail_is_not_zero e = true_is_not_false (ap (λ z. elim z [ pos n ↦ false | negsuc n ↦ true ]) e)

abbrev pub or_else : Option ℕ → Option ℕ → Option ℕ
or_else none o = o
or_else (some k) o = some k

module _ {D : Type 0} where
  -- A device behind the ones that are searched
  find_device-set :
      (n i j : ℕ) (ds : List (Device D)) (v : Device D) (q : List ℕ)
      → n + i ≤ j
      → find_device n i (set ds j v) q ≡ find_device n i ds q
  unfolding find_device
  find_device-set zero i j ds v q h = refl
  find_device-set (suc n) i j ds v q h =
      rw
        (
          get_or-set_ne ds j i v no_device (omega arith),
          find_device-set n (i + 1) j ds v q (omega arith),
        )
        refl

  abbrev found_at : List (Device D) → List ℕ → ℕ → Option ℕ
  found_at ds q j = if kstreq (get_or ds j no_device).name q then some j else none

  -- The last device is taken where no other one matches.
  find_device_last :
      (n i : ℕ) (ds : List (Device D)) (q : List ℕ)
      → find_device (suc n) i ds q ≡ or_else (find_device n i ds q) (found_at ds q (n + i))
  unfolding find_device
  find_device_last zero i ds q = ap (found_at ds q) {x = i} {y = 0 + i} (omega arith)
  find_device_last (suc n) i ds q = elim (Bool-cases (kstreq (get_or ds i no_device).name q)) [
    | inl e ↦ rw e refl
    | inr e ↦ rw e (
        find_device_last n (i + 1) ds q
        ∙ ap (λ j. or_else (find_device n (i + 1) ds q) (found_at ds q j)) {x = n + (i + 1)}
            {y = suc n + i} (omega arith))
  ]

  abbrev pub SameTable : DevFs D → DevFs D → Type 0
  SameTable d d' = (d.devices ≡ d'.devices) × (d.count ≡ d'.count) × (d.capacity ≡ d'.capacity)

  pub devfs_create_inode_lem :
      (w : World (DevFs D)) (sb kind : ℕ) (device : Option ℕ)
      → IfSome
          (λ m. SameTable m.0.disk w.disk × (m.0.disk.inode m.1 ≡ new_inode sb kind device))
          (devfs_create_inode w sb kind device)
  unfolding devfs_create_inode
  devfs_create_inode_lem w sb kind device =
      IfSome-bind _ (kmalloc w.heap sizeof_inode) _ (λ block e.
        IfSome-bind _ (kmalloc block.1 sizeof_devfs_inode) _ (λ private e'.
          ((refl, refl, refl), update_self w.disk.inode block.0 (new_inode sb kind device))))

  -- A table that `devfs_mount` or `devfs_register` leaves
  abbrev pub IsReady : DevFs D → Type 0
  IsReady d =
      (length d.devices ≡ devfs_max_devices)
      × (d.capacity ≡ devfs_max_devices)
      × ((j : ℕ) → length (get_or d.devices j no_device).name ≡ vfs_max_name)

  abbrev pub IfRegistered :
      World (DevFs D)
      → List ℕ
      → Option (ReadHandler D)
      → Option (WriteHandler D)
      → World (DevFs D) × ℤ
      → Type 0
  IfRegistered w name read write r =
      r.1 ≡ pos 0
      → (w.disk.count < w.disk.capacity) × SameTable r.0.disk (add_device w.disk name read write)

  pub devfs_register_lem :
      (w : World (DevFs D)) (mounts : List Superblock) (path name : List ℕ)
      (read : Option (ReadHandler D)) (write : Option (WriteHandler D))
      → IfSome (IfRegistered w name read write) (devfs_register w mounts path name read write)
  unfolding devfs_register
  devfs_register_lem w mounts path name read write =
      let d = w.disk in
      let P = IfRegistered w name read write in
      let w' : World (DevFs D) = record w { disk = add_device d name read write } in
      elim (Bool-cases (leb d.capacity d.count)) [
        | inl e ↦ rw e (λ s. absurd (fail_is_not_zero s))
        | inr e ↦ elim (Option-cases (vfs_find_mount mounts path)) [
          | inl m ↦ rw (e, m) (λ s. absurd (fail_is_not_zero s))
          | inr (sb, m) ↦
              let room : d.count < d.capacity = ground arith in
              rw (e, m)
                (IfSome-map P (devfs_create_inode w' sb vfs_type_file (some d.count)) _ (
                  IfSome-mono (devfs_create_inode w' sb vfs_type_file (some d.count))
                    (λ made h ok. (room, h.0))
                    (devfs_create_inode_lem w' sb vfs_type_file (some d.count))))
        ]
      ]

  IsReady-add :
      (d : DevFs D) (name : List ℕ) (read : Option (ReadHandler D))
      (write : Option (WriteHandler D))
      → d.count < d.capacity
      → IsReady d
      → IsReady (add_device d name read write)
  IsReady-add d name read write room (size, capacity, names) =
      let old = get_or d.devices d.count no_device in
      let new : Device D = record {
        name = kstrcpy old.name name vfs_max_name;
        read = read;
        write = write;
      } in
      (
        length-set d.devices d.count new ∙ size,
        capacity,
        λ j. elim (Bool-cases (d.count == j)) [
          | inl e ↦
              ap (λ j. length (get_or (set d.devices d.count new) j no_device).name)
                (sym ((==_iff d.count j).0 e))
              ∙ ap (λ x. length x.name)
                  (get_or-set_self d.devices d.count new no_device (omega (arith, size, capacity)))
              ∙ length-kstrcpy old.name name (names d.count)
          | inr e ↦
              ap (λ x. length x.name)
                (get_or-set_ne d.devices d.count j new no_device
                  (λ s. true_is_not_false (sym ((==_iff d.count j).1 s) ∙ e)))
              ∙ names j
        ],
      )

  -- The registration of a device whose name has at most 63 characters, where it succeeds, keeps the
  -- table as `devfs_mount` leaves it. Every name then finds what it found before, and a name that found
  -- nothing finds the new device if the two are equal, and still nothing if not.
  pub devfs_register-find :
      (w w' : World (DevFs D)) (mounts : List Superblock) (path name : List ℕ)
      (read : Option (ReadHandler D)) (write : Option (WriteHandler D))
      → IsReady w.disk
      → length (c_string name) < vfs_max_name
      → devfs_register w mounts path name read write ≡ some (w', pos 0)
      → IsReady w'.disk
        × ((q : List ℕ)
            → find_device w'.disk.count 0 w'.disk.devices q
              ≡ or_else
                  (find_device w.disk.count 0 w.disk.devices q)
                  (if kstreq name q then some w.disk.count else none))
  devfs_register-find w w' mounts path name read write ready fits e =
      let d = w.disk in
      let old = get_or d.devices d.count no_device in
      let new : Device D = record {
        name = kstrcpy old.name name vfs_max_name;
        read = read;
        write = write;
      } in
      let (room, (devices, count, capacity)) =
        subst (IfSome (IfRegistered w name read write)) e
          (devfs_register_lem w mounts path name read write) refl in
      let (size, space, names) = IsReady-add d name read write room ready in
      let few : d.count < length d.devices = omega (arith, room, ready.0, ready.1) in
      let counted : add32 d.count 1 ≡ suc d.count = omega (arith, few, ready.0) in
      (
        (
          ap length devices ∙ size,
          capacity ∙ space,
          λ j. ap (λ ds. length (get_or ds j no_device).name) devices ∙ names j,
        ),
        λ q.
            ap₂ (λ n ds. find_device n 0 ds q) (count ∙ counted) devices
            ∙ find_device_last d.count 0 (set d.devices d.count new) q
            ∙ ap₂ or_else (find_device-set d.count 0 d.count d.devices new q (omega arith)) (
                ap (found_at (set d.devices d.count new) q) {x = d.count + 0} {y = d.count}
                  (omega arith)
                ∙ ap (λ x. if kstreq x.name q then some d.count else none)
                    (get_or-set_self d.devices d.count new no_device few)
                ∙ ap (λ b. if b then some d.count else none)
                    (kstreq-kstrcpy old.name name q (ready.2 d.count) fits)),
      )
