-- ===== src/Mqttc/Examples/Finite.antt =====
-- The network of packets as one from which only so much can be read.
use rust_mq.Base.{ℕ, ◌<◌, List, [], ◌∷◌, length, arith, refl, ◌≡◌}
use rust_mq.Mqtt3.Packet.{Packet}
use rust_mq.Mqttc.Store.{local_storage}
use rust_mq.Mqttc.Options.{forever_disconnect, new}
use rust_mq.Mqttc.Client.Life.{await}
use rust_mq.Mqttc.Client.Progress.{Takes, Finite, local_storage-Answering}
use rust_mq.Mqttc.Client.Progress.Accept.{phase_of, rounds_of}
use rust_mq.Mqttc.Client.Progress.Await.{Ended, await-Ended}
use rust_mq.Mqttc.Examples.{Script, read_script, script, connected_client}

abbrev pub packets_left : Script → ℕ
packets_left n = length n.input

read_script-Takes :
    (ps : List Packet) (n : Script)
    → packets_left n ≡ length ps
    → Takes packets_left (length ps) (read_script ps n)
read_script-Takes [] n h = omega (arith, h)
read_script-Takes (p ∷ ps) n h = omega arith

pub script-Finite : Finite script packets_left
script-Finite = record {
  reads = λ n. read_script-Takes n.input n refl;
  writes = λ p n. omega arith;
  flushes = λ n. omega arith;
  sets = λ t n. omega arith;
  ends = λ n. omega arith;
}

few_rounds : rounds_of packets_left (connected_client []) < 3
unfolding phase_of
few_rounds = omega arith

no_reconnect : (connected_client []).opts.reconnect ≡ forever_disconnect
unfolding new
no_reconnect = refl

await-Ended_example : Ended packets_left 0 (await script local_storage 3 (connected_client []))
await-Ended_example =
    await-Ended script local_storage packets_left script-Finite local_storage-Answering 3
      (connected_client []) no_reconnect few_rounds
