-- ===== src/Devfs/Handlers.antt =====
-- `devfs_read` and `devfs_write` of file_system/devfs/devfs.c on what `devfs_register` made.
use acorn_os.Common.{
  ℕ, ◌<◌, ◌≡◌, refl, sym, ap, ◌∙◌, subst, ◌≢◌, true, false, Option, none, some, List, [], arith,
  ◌==◌, length, get_or,
}
use acorn_os.Common.{IfSome, get_or-set_self}
use acorn_os.Vfs.Mounts.{Superblock}
use acorn_os.Vfs.Mounts.{Superblock}
use acorn_os.Vfs.Files.{File, World, fail}
use acorn_os.Strings.Compare.{IsBytes, kstreq_iff}
use acorn_os.Devfs.{devfs_lookup, device_of, devfs_read, devfs_write, call_read, call_write}
use acorn_os.Strings.{c_string, kstreq, kstrcpy}
use acorn_os.Vfs.Files.{World}
use acorn_os.Devfs.{
  fail, vfs_type_file, ReadHandler, WriteHandler, Device, DevFs, devfs_register, vfs_max_name,
  new_inode, no_device, devfs_create_inode, find_device,
}
use acorn_os.Common.Int.{pos}
use acorn_os.Devfs.Register.{
  SameTable, IsReady, IfRegistered, devfs_create_inode_lem, devfs_register_lem, devfs_register-find,
}
use acorn_os.Strings.Compare.{IsBytes, kstreq_iff}

is_zero_false : (n : ℕ) → n ≢ 0 → (n == 0) ≡ false
is_zero_false n nz = ground arith

module _ {D : Type 0} where
  abbrev new_device : DevFs D → List ℕ → Option (ReadHandler D) → Option (WriteHandler D) → Device D
  new_device d name read write = record {
    name = kstrcpy (get_or d.devices d.count no_device).name name vfs_max_name;
    read = read;
    write = write;
  }

  -- The device of a file that is open on the inode of a lookup
  device_of-lookup :
      (w w' : World (DevFs D)) (dir i k : ℕ) (name : List ℕ) (f : File)
      → dir ≢ 0
      → find_device w.disk.count 0 w.disk.devices name ≡ some k
      → devfs_lookup w dir name ≡ some (w', i)
      → f.inode ≡ i
      → i ≢ 0
      → device_of w' f ≡ some (get_or w.disk.devices k no_device)
  unfolding devfs_lookup
  device_of-lookup w w' dir i k name f root found e opened nz =
      let sb = (w.disk.inode dir).superblock in
      let made : devfs_create_inode w sb vfs_type_file (some k) ≡ some (w', i) =
        sym (rw (is_zero_false dir root, found) refl) ∙ e in
      let ((devices, count, capacity), inode) =
        subst
          (IfSome (λ m.
            SameTable m.0.disk w.disk × (m.0.disk.inode m.1 ≡ new_inode sb vfs_type_file (some k))))
          made (devfs_create_inode_lem w sb vfs_type_file (some k)) in
      rw (opened, is_zero_false i nz, inode, devices) refl

  -- A registered device serves the reads and the writes of the files that are open on it: after the
  -- registration of a name that no device had, of at most 63 bytes, a lookup of that name that gives
  -- an inode gives one whose reads and writes are calls of the two handlers.
  pub devfs_register-read :
      (w w' w'' : World (DevFs D)) (mounts : List Superblock) (path name : List ℕ)
      (read : Option (ReadHandler D)) (write : Option (WriteHandler D)) (dir i : ℕ) (f : File)
      → IsReady w.disk
      → IsBytes name
      → length (c_string name) < vfs_max_name
      → find_device w.disk.count 0 w.disk.devices name ≡ none
      → devfs_register w mounts path name read write ≡ some (w', pos 0)
      → dir ≢ 0
      → devfs_lookup w' dir name ≡ some (w'', i)
      → i ≢ 0
      → f.inode ≡ i
      → ((size : ℕ) → devfs_read w'' f size ≡ call_read w'' f size read)
        × ((src : List ℕ) (size : ℕ) → devfs_write w'' f src size ≡ call_write w'' f src size write)
  unfolding devfs_read devfs_write
  devfs_register-read w w' w'' mounts path name read write dir i f ready bytes fits fresh e root e'
        nz opened =
      let d = w.disk in
      let (room, (devices, count, capacity)) =
        subst (IfSome (IfRegistered w name read write)) e
          (devfs_register_lem w mounts path name read write) refl in
      let named : kstreq name name ≡ true = (kstreq_iff name name bytes bytes).1 refl in
      let found : find_device w'.disk.count 0 w'.disk.devices name ≡ some d.count =
        (devfs_register-find w w' mounts path name read write ready fits e).1 name
        ∙ rw (fresh, named) refl in
      let device : device_of w'' f ≡ some (new_device d name read write) =
        device_of-lookup w' w'' dir i d.count name f root found e' opened nz
        ∙ ap some (
            ap (λ ds. get_or ds d.count no_device) devices
            ∙ get_or-set_self d.devices d.count _ no_device
                (omega (arith, room, ready.0, ready.1))) in
      (
        λ size.
            ap
              (λ o. elim o [ none ↦ (w'', f, [], fail) | some dev ↦ call_read w'' f size dev.read ])
              device,
        λ src size.
            ap
              (λ o. elim o [
                | none ↦ (w'', f, fail)
                | some dev ↦ call_write w'' f src size dev.write
              ])
              device,
      )
