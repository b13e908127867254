-- ===== src/Server.antt =====
-- crates/server/src/server.rs: the handlers of the control and of the data server. What they answer is
-- a value; how it is sent is the crate `poem`.
pub mod Data
pub mod Start
pub mod Listen
pub mod Serve
pub mod Control
pub mod Shutdown
use percas.Base.{ℕ, List, [], ◌∷◌, Option, none, some, map}
use percas.Text.{String, Url}
use percas.Bytes.{AsRef, Mur3}
use percas.BTreeMap.{values}
use percas.Ring.{list_vnodes}
use percas.Member.{MemberState, MemberStatus}
use percas.Gossip.{GossipState}

pub record Member : Type 0 where
  pub node_id : ℕ
  pub cluster_id : String
  pub advertise_data_url : Url
  pub advertise_ctrl_url : Url
  pub incarnation : ℕ
  pub status : MemberStatus
  pub heartbeat : ℕ
  pub vnodes : List ℕ

pub record ListMembersResponse : Type 0 where
  pub members : List Member

module _ ⦃a : AsRef ℕ⦄ ⦃m : Mur3⦄ where
  -- The body of the closure of `list_members`.
  unfoldable pub listed : GossipState → MemberState → Member
  listed g member = record {
    node_id = member.info.node_id;
    cluster_id = member.info.cluster_id;
    advertise_data_url = member.info.advertise_data_url;
    advertise_ctrl_url = member.info.advertise_ctrl_url;
    incarnation = member.info.incarnation;
    status = member.status;
    heartbeat = member.heartbeat;
    vnodes = list_vnodes g.ring member.info.node_id;
  }

  unfoldable pub list_members : GossipState → ListMembersResponse
  unfolding listed
  list_members g = record { members = map (listed g) (values g.membership.members) }
