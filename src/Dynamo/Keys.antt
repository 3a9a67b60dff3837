-- ===== src/Dynamo/Keys.antt =====
-- The keys, the expressions and the moments that internal/stack/dynamodb.go sends to DynamoDB.
use Prim.Native.String.{◌++◌}
use container_provisioner_k.Base.{ℕ, ◌+◌, ◌-◌, ◌/◌, ◌^◌, String, if◌then◌else◌, ltb}
use container_provisioner_k.Base.Int.{ℤ, pos, negsuc, pos_part, neg_part}
use container_provisioner_k.Base.Text.{itoa}
use container_provisioner_k.Config.{Duration}
use container_provisioner_k.Models.{Time}
use container_provisioner_k.Dynamo.Items.{Item, no_entry, entry, av_s}

abbrev pub stack_meta_pk : String → String
stack_meta_pk stack_id = "STACK#" ++ stack_id

abbrev pub port_sk : ℕ → String
port_sk port = "PORT#" ++ itoa port

abbrev pub job_pk : String → String
job_pk job_id = "JOB#" ++ job_id

abbrev pub key_of : String → String → Item
key_of pk sk = entry "pk" (av_s pk) (entry "sk" (av_s sk) no_entry)

abbrev pub stack_key : String → Item
stack_key stack_id = key_of (stack_meta_pk stack_id) "META"

abbrev pub job_key : String → Item
job_key job_id = key_of (job_pk job_id) "META"

abbrev pub port_key : ℕ → Item
port_key port = key_of "PORTS" (port_sk port)

-- The condition and update expressions.
abbrev pub row_is_new : String
row_is_new = "attribute_not_exists(pk) AND attribute_not_exists(sk)"

abbrev pub row_exists : String
row_exists = "attribute_exists(pk) AND attribute_exists(sk)"

abbrev pub is_unowned : String
is_unowned = "attribute_not_exists(stack_id) OR stack_id = :empty"

abbrev pub is_claimable : String
is_claimable =
    "attribute_exists(pk) AND attribute_exists(sk) AND (attribute_not_exists(stack_id) OR stack_id = :empty)"

abbrev pub is_stale : String
is_stale =
    "(attribute_not_exists(stack_id) OR stack_id = :empty) AND (attribute_not_exists(locked_at) OR locked_at < :stale_before)"

abbrev pub set_owner : String
set_owner = "SET stack_id = :sid, updated_at = :now"

abbrev pub set_lock : String
set_lock = "SET created_at = :now, locked_at = :locked_at"

abbrev pub set_status : String
set_status = "SET #status = :status, node_id = :node, updated_at = :now"

-- m - n
abbrev minus : ℕ → ℕ → ℤ
minus m n = if ltb m n then negsuc (n - m - 1) else pos (m - n)

-- The seconds from the zero Time to the Unix epoch.
abbrev epoch : ℕ
epoch = 62135596800

-- t.Unix() and t.Unix() - int64(ttl.Seconds())
abbrev pub unix : Time → ℤ
unix t = minus (t / 10 ^ 9) epoch

abbrev pub stale_before : Time → Duration → ℤ
stale_before t ttl = minus (t / 10 ^ 9 + neg_part ttl / 10 ^ 9) (epoch + pos_part ttl / 10 ^ 9)
