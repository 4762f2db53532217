-- ===== src/Host.antt =====
-- The host side of internal/orchestrator/orchestrator.go: `NewSupervisor`, where the files of a sandbox
-- are, the Firecracker configuration, the cgroup's caps and the process helpers. A rooted path is kept
-- as its components, the last one first, which is what filepath.Clean makes of it.
pub mod Paths
pub mod Rollback
pub mod Caps
pub mod Start
use sandboxed_ai_agent_orche.Prelude.{
  ℕ, zero, suc, ◌+◌, ◌-◌, ◌*◌, ◌/◌, ◌%◌, ◌^◌, Bool, true, false, ◌&&◌, ◌||◌, not, Option, none,
  some, List, [], ◌∷◌, ◌++◌, if◌then◌else◌, is_empty, Result, ok, err, ◌==◌, ltb,
}
use sandboxed_ai_agent_orche.Prelude.Text.{Text, codes, text_eq}
use sandboxed_ai_agent_orche.Prelude.Int.{ℤ, pos, negsuc, ◌*ℤ◌, ◌+ℤ◌, wrap64, ltb_ℤ}
use sandboxed_ai_agent_orche.Cid.{CidAllocator, new_cid_allocator}
use sandboxed_ai_agent_orche.Supervisor.{LaunchSpec}

abbrev pub Location : Type 0
Location = List Text

-- One component after another, as filepath.Clean reads a rooted path.
abbrev pub enter : Text → Location → Location
enter name at =
    if is_empty name || text_eq name (codes ".")
    then at
    else (if text_eq name (codes "..")
        then (elim at [ [] ↦ [] | parent ∷ rest ↦ rest ])
        else name ∷ at)

-- The components of a path: what stands between slashes.
unfoldable pub split_path : Text → List Text
split_path [] = [] ∷ []
split_path (b ∷ s) =
    let rest = split_path s in
    if b == 47
    then [] ∷ rest
    else (elim rest [ [] ↦ (b ∷ []) ∷ [] | name ∷ names ↦ (b ∷ name) ∷ names ])

unfoldable pub enter_all : List Text → Location → Location
enter_all [] at = at
enter_all (name ∷ names) at = enter_all names (enter name at)

-- `filepath.Join(at, path)` for a rooted `at`.
unfoldable pub join : Location → Text → Location
unfolding split_path enter_all
join at path = enter_all (split_path path) at

-- `filepath.Dir`
abbrev pub dir : Location → Location
dir [] = []
dir (name ∷ rest) = rest

pub record HostConfig : Type 0 where
  pub firecracker_bin : Text
  pub jailer_bin : Text
  pub kernel_image_path : Text
  pub rootfs_path : Text
  pub use_jailer : Bool
  pub chroot_base_dir : Text
  pub jailer_uid : ℤ
  pub jailer_gid : ℤ
  pub state_dir : Text
  pub cgroup_root : Text
  pub cgroup_base : Text
  pub kernel_args : Text
  pub cid_min : ℕ
  pub cid_max : ℕ

abbrev pub or_text : Text → Text → Text
or_text s t = if is_empty s then t else s

abbrev pub or_nat : ℕ → ℕ → ℕ
or_nat n d = if n == 0 then d else n

abbrev pub or_int : ℤ → ℤ → ℤ
or_int (pos zero) d = d
or_int (pos (suc n)) d = pos (suc n)
or_int (negsuc n) d = negsuc n

unfoldable pub with_defaults : HostConfig → HostConfig
with_defaults c = record c {
  firecracker_bin = or_text c.firecracker_bin (codes "firecracker");
  jailer_bin = if c.use_jailer then or_text c.jailer_bin (codes "jailer") else c.jailer_bin;
  chroot_base_dir = or_text c.chroot_base_dir (codes "/srv/jailer");
  state_dir = or_text c.state_dir (codes "/srv/sandbox-state");
  cgroup_root = or_text c.cgroup_root (codes "/sys/fs/cgroup");
  cgroup_base = or_text c.cgroup_base (codes "sandboxes");
  jailer_uid = or_int c.jailer_uid (pos 10001);
  jailer_gid = or_int c.jailer_gid (pos 10001);
  cid_min = or_nat c.cid_min 3;
  cid_max = or_nat c.cid_max (2 ^ 31 - 1);
}

pub data StartError : Type 0 where
  images_required image_missing cgroup_missing : StartError

-- `NewSupervisor`: the configuration that it keeps and its allocator; nothing is tracked yet.
unfoldable pub new_supervisor :
    (Location → Bool) → HostConfig → Result StartError (HostConfig × CidAllocator)
unfolding with_defaults
new_supervisor exists cfg =
    let c = with_defaults cfg in
    if is_empty cfg.kernel_image_path || is_empty cfg.rootfs_path
    then err images_required
    else (if c.use_jailer
          && not (exists (join [] c.kernel_image_path) && exists (join [] c.rootfs_path))
        then err image_missing
        else (if c.use_jailer
              && not (exists (join (join [] c.cgroup_root) (codes "cgroup.controllers")))
            then err cgroup_missing
            else ok (c, new_cid_allocator c.cid_min c.cid_max)))

-- Where the files of a sandbox are: its state directory, the directory above its chroot, its leaf.
unfoldable pub state_dir_of : HostConfig → Text → Location
state_dir_of c id = join (join [] c.state_dir) id

unfoldable pub chroot_root_of : HostConfig → Text → Location
chroot_root_of c id =
    join (join (join (join [] c.chroot_base_dir) (codes "firecracker")) id) (codes "root")

unfoldable pub leaf_of : HostConfig → Text → Location
leaf_of c id = join (join (join [] c.cgroup_root) c.cgroup_base) id

-- `bootPaths`; there is no chroot in dev mode.
pub record BootPaths : Type 0 where
  pub host_vsock : Location
  pub host_socket : Location
  pub chroot_root : Option Location

-- A path that is handed to Firecracker: in its jail, or on the host.
pub data HandedPath : Type 0 where
  in_jail : Text → HandedPath
  on_host : Location → HandedPath

pub record JailerConfig : Type 0 where
  pub id : Text
  pub uid : ℤ
  pub gid : ℤ
  pub exec_file : Text
  pub jailer_binary : Text
  pub chroot_base_dir : Text
  pub kernel_image_path : Text

pub record FirecrackerConfig : Type 0 where
  pub socket_path : HandedPath
  pub kernel_image_path : Text
  pub kernel_args : Text
  pub root_drive : Location
  pub vcpu_count : ℤ
  pub mem_size_mib : ℤ
  pub vsock_cid : ℕ
  pub vsock_path : HandedPath
  pub vmid : Text
  pub jailer_cfg : Option JailerConfig

abbrev pub default_kernel_args : Text
default_kernel_args =
    codes
      "console=ttyS0 reboot=k panic=1 pci=off i8042.noaux i8042.nomux i8042.nopnp i8042.dumbkbd random.trust_cpu=on"

unfoldable pub build_jailer_config : HostConfig → Text → JailerConfig
build_jailer_config c id = record {
  id = id;
  uid = c.jailer_uid;
  gid = c.jailer_gid;
  exec_file = c.firecracker_bin;
  jailer_binary = c.jailer_bin;
  chroot_base_dir = c.chroot_base_dir;
  kernel_image_path = c.kernel_image_path;
}

-- `buildFirecrackerConfig`, after the disk is in place.
unfoldable pub build_firecracker_config :
    HostConfig → Text → ℕ → LaunchSpec → FirecrackerConfig × BootPaths
unfolding state_dir_of chroot_root_of build_jailer_config
build_firecracker_config c id cid spec =
    let state = state_dir_of c id in
    let root = chroot_root_of c id in
    let socket = codes "run/firecracker.socket" in
    let vsock = codes "v.sock" in
    (
      record {
        socket_path =
            if c.use_jailer
            then in_jail socket
            else on_host (join state (codes "firecracker.socket"));
        kernel_image_path = c.kernel_image_path;
        kernel_args = or_text c.kernel_args default_kernel_args;
        root_drive = join state (codes "rootfs.ext4");
        vcpu_count = spec.vcpus;
        mem_size_mib = spec.mem_mib;
        vsock_cid = cid;
        vsock_path = if c.use_jailer then in_jail vsock else on_host (join state vsock);
        vmid = id;
        jailer_cfg = if c.use_jailer then some (build_jailer_config c id) else none;
      },
      record {
        host_vsock = if c.use_jailer then join root vsock else join state vsock;
        host_socket =
            if c.use_jailer then join root socket else join state (codes "firecracker.socket");
        chroot_root = if c.use_jailer then some root else none;
      },
    )

-- `strconv.Itoa`, the digits by fuel.
unfoldable pub digits : ℕ → ℕ → Text → Text
digits zero n acc = acc
digits (suc fuel) n acc =
    let more = digits fuel (n / 10) ((48 + n % 10) ∷ acc) in
    if ltb n 10 then (48 + n) ∷ acc else more

abbrev pub decimal : ℤ → Text
decimal (pos n) = digits (suc n) n []
decimal (negsuc n) = 45 ∷ digits (suc (suc n)) (suc n) []

-- Go's division of an int by 100 rounds towards 0.
abbrev pub div_100 : ℤ → ℤ
div_100 (pos n) = pos (n / 100)
div_100 (negsuc n) = wrap64 (negsuc 0 *ℤ pos ((n + 1) / 100))

unfoldable pub cpu_quota : ℤ → ℤ
cpu_quota percent = div_100 (wrap64 (percent *ℤ pos 100000))

unfoldable pub cpu_max_string : ℤ → Text
unfolding cpu_quota digits
cpu_max_string percent = decimal (cpu_quota percent) ++ codes " " ++ decimal (pos 100000)

unfoldable pub mem_max_bytes : ℤ → ℤ
mem_max_bytes mib = wrap64 (wrap64 (mib *ℤ pos 1048576) +ℤ pos 67108864)

pub data CgroupFile : Type 0 where
  cpu_max memory_max memory_swap_max pids_max : CgroupFile

-- The caps of a sandbox in the order in which they are written.
unfoldable pub caps_of : LaunchSpec → List (CgroupFile × Text)
unfolding cpu_max_string mem_max_bytes digits
caps_of spec =
    (cpu_max, cpu_max_string spec.cpu_percent)
    ∷ (memory_max, decimal (mem_max_bytes spec.mem_mib))
    ∷ (memory_swap_max, codes "0")
    ∷ (pids_max, decimal spec.pids_max)
    ∷ []

-- Writes in order, up to the first that fails: whether all succeeded, and what is in the leaf.
unfoldable pub write_caps :
    (CgroupFile → Bool) → List (CgroupFile × Text) → Bool × List (CgroupFile × Text)
write_caps writable [] = (true, [])
write_caps writable ((file, val) ∷ caps) =
    let (fine, written) = write_caps writable caps in
    if writable file then (fine, (file, val) ∷ written) else (false, [])

-- `prepareCgroup`: the error, and what the leaf holds when there is one.
unfoldable pub prepare_cgroup :
    Bool → Bool → (CgroupFile → Bool) → LaunchSpec → Bool × Option (List (CgroupFile × Text))
unfolding caps_of write_caps
prepare_cgroup parent_ok leaf_ok writable spec =
    if not parent_ok || not leaf_ok
    then (false, none)
    else (let (fine, written) = write_caps writable (caps_of spec) in (fine, some written))

-- What `kill(pid, 0)` answers.
pub data KillAnswer : Type 0 where
  delivered not_permitted no_such_process : KillAnswer

unfoldable pub process_alive : (ℤ → KillAnswer) → ℤ → Bool
process_alive kill pid =
    if ltb_ℤ (pos 0) pid then (elim (kill pid) [ no_such_process ↦ false | _ ↦ true ]) else false

pub data Signal : Type 0 where
  sigterm sigkill : Signal

-- The rounds of `killPID` that are left; `alive n` says whether the process is alive after `n` rounds.
unfoldable pub kill_loop : (ℕ → Bool) → ℕ → ℕ → List Signal
kill_loop alive zero n = sigkill ∷ []
kill_loop alive (suc k) n = let rest = kill_loop alive k (n + 1) in if alive n then rest else []

unfoldable pub kill_pid : (ℕ → Bool) → ℤ → List Signal
unfolding kill_loop
kill_pid alive pid = if ltb_ℤ (pos 0) pid then sigterm ∷ kill_loop alive 30 0 else []
