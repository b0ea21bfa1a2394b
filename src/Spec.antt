-- ===== src/Spec.antt =====
-- spec/spec.go: what deployd writes into etcd. Fields that no code of the program reads (times, run
-- states, limits of the scheduler, the Docker details but the environment) are left out.
use lainlet.Base.{ℕ, List, Text}
use lainlet.Base.{GoMap}

-- spec.ContainerSpec
pub record ContainerSpec : Type 0 where
  pub image : Text
  pub env : List Text
  pub volumes : List Text
  pub command : List Text
  pub cpu_limit : ℕ
  pub memory_limit : ℕ
  pub expose : ℕ

-- spec.Dependency
pub record Dependency : Type 0 where
  pub pod_name : Text
  pub policy : ℕ

-- spec.PodSpec
pub record PodSpec : Type 0 where
  pub containers : List ContainerSpec
  pub dependencies : List Dependency
  pub annotation : Text

-- spec.PodGroupSpec, with the fields of the embedded ImSpec
pub record PodGroupSpec : Type 0 where
  pub name : Text
  pub namespace : Text
  pub pod : PodSpec

-- spec.Container; `runtime_env` is Runtime.Config.Env
pub record Container : Type 0 where
  pub id : Text
  pub runtime_env : List Text
  pub node_name : Text
  pub node_ip : Text
  pub container_ip : Text
  pub container_port : ℕ

-- spec.Pod
pub record Pod : Type 0 where
  pub instance_no : ℕ
  pub containers : List Container

-- spec.PodGroupWithSpec, with the pods of the embedded PodGroup
pub record PodGroup : Type 0 where
  pub spec : PodGroupSpec
  pub pods : List Pod

-- spec.SharedPodWithSpec
pub record SharedPod : Type 0 where
  pub spec : PodSpec
  pub pod : Pod

-- depends.Depends: by node, then by application
abbrev pub Depends : Type 0
Depends = GoMap (GoMap SharedPod)
