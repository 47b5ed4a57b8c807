-- ===== src/Lib.antt =====
-- A verification library for otacon's voice calls and for the approval of what its agents do.
--
-- Two parts of the program are modelled. The voice plugin (src/openclaw-voice/src) runs phone
-- calls, as its configuration (config.ts) says: a Twilio line (twilio.ts) keeps the legs of its
-- calls and streams their audio, an otacon line (otacon.ts) has a phone do so, the mix (mix.ts)
-- makes what a listener hears of both sides, and the line sound (linesound.ts) tells speech from
-- hold music. A mission (call.ts) talks on a call: it brings in parties, passes the audio between
-- the line and a voice model, and reports how the call ended; the runtime (runtime.ts) starts the
-- missions, one on a line, and hands their reports to the sessions that asked for the calls. While
-- a phone menu plays, the navigator (navigator.ts) listens, presses its keys and decides when to hang
-- up or hand over.
-- The orchestrator (src/orchestrator) runs agents: a gate (agents/approval-gate-server.ts) holds
-- back the bash commands that sandbox/mutating.ts calls mutating until a person resolves the
-- escalation by a request (server/routes/escalations.ts), and the web client
-- (web/src/lib/event-handler.ts) reduces the events to a transcript, the gate's requests and
-- resolutions among them. An agent's phone is found by its number in the registry
-- (resolve/phone.ts).
--
-- Files, by the code they model:
--   Prelude           lists, JavaScript maps by insertion order, integers, tests and scanning
--   Voice/Line        line.ts: LineCall, its states and directions
--   Voice/Twilio      twilio.ts: Leg, ListenLeg, TwilioLine; newLeg, setState, ended, active, stop
--   .../Commands      `cmd`: dial, answer, hangup, dtmf, hold, resume, swap, merge
--   .../Webhooks      onIncoming, onStatus, onStreamSocket, sendAudio, mark, clear
--   .../Listeners     `listen` and the listener it returns
--   .../Steps         all handlers as one step function `handle`, and the runs `Reach`
--   Voice/Pcm, Mix    mix.ts: CallMix; model, clear, line, take, and their runs
--   Voice/LineSound   linesound.ts: window, runs, quietSince, summary
--   Voice/Navigator   navigator.ts: lineText, assistantSaid, pressed, lineSound, and in state the
--                     entries that fit
--   .../Check         state, check cut at its awaits, and all inputs as one step
--   Voice/CallAudio   call.ts, the audio: onDownlink, onLineSound, keepPreroll, unmute,
--                     onModelAudio, onClearAudio, hasSpeech
--   Voice/Mission     call.ts: the state of CallMission; note, addLine, stopNavigator, report
--   .../Start         start, the session's events, the navigator's actions, listeners
--   .../Ending        onCallEvent, onLineEnded, finish, lastWords, checkMergedCall
--   .../Parties       callParty, switchLine, dropLine, connectLines, the merge
--   .../Tools         onToolCall, lineAction, pressKeys, setEnding, afterSpokenAnswer
--   .../Steps         all handlers and continuations as one step
--   Voice/Otacon      otacon.ts: OtaconLink; connect, onText, cmd, sendAudio, mark, clear
--   .../Steps         all its handlers as one step
--   Voice/Config      config.ts: obj, str, num, oneOf, isE164
--   .../Lines, Settings, Parts, Parse   parseConfig: the lines, the records, the other parts, the
--                     whole
--   Voice/Runtime     runtime.ts: OtaconVoiceRuntime; onMissionEnd, live, status, endCall, stop
--   .../Calls         startCall, newMission, takes, onCall, listen, lineAction
--   .../Steps         all its handlers, and the steps of its missions, as one step
--   Voice/Report      report.ts: clip and formatReport
--   Voice/G711        g711.ts: muLawDecode, muLawEncode, MuLawToPcm16k, Pcm16kToMuLaw
--   Voice/Recent      recent.ts: clip, and the cutting of formatConsultContext
--   Orchestrator/Mutating    mutating.ts: isMutating, isMutatingOtacon, and the tables, with the
--                            registry of src/cli/src/commands/otacon/index.ts
--   Orchestrator/Transcript  event-handler.ts: TranscriptStore.ingest, handlePiEvent
--   Orchestrator/Gate        approval-gate-server.ts and escalations.ts: the gate,
--                            pollForResolution, and the resolve route's check and write
--   Orchestrator/Redact      sandbox/redact.ts: walkRedact
--   Orchestrator/Phone       resolve/phone.ts: loadOtaconConfig, resolvePhone
-- The other modules below these hold lemmas, and each Tests module runs at concrete inputs.
--
-- A handler takes a state and returns the new one with the list of its effects, in the order of the
-- source. An async function is cut at each wait: what follows the wait is a step of its own, so any
-- other handler may run between. A rejected promise is the step that the source's catch runs.
-- Maps are association lists in insertion order, as a JavaScript Map iterates. Objects that a
-- closure holds are found again by their id, and `gone` keeps the calls of legs that have ended.
-- Ids, sockets, times and message bodies are opaque numbers; a command is a list of UTF-16 units.
--
-- Two loops run on fuel: the polls of afterSpokenAnswer, which wait 200 ms each for 15 s at most, so
-- 77 of them are enough, and the digits of a count are twenty at most. In the configuration a number
-- is counted in thousandths. Every other loop is structural recursion, over a list or over the exponent
-- of a code. The magnitudes of all samples are few enough to check the coding on each of them.
--
-- What a mission awaits is answered by an input that may come at any time and with any arguments, so
-- the runs of Mission/Steps include those of the program. Notes and messages that the code puts
-- together from phrases are constructors.
--
-- Not modelled: Twilio's REST interface and its signatures (inputs say what they answer), TwiML
-- texts, the codecs inside a leg (a handler takes decoded audio, or the coding as a function), the
-- floating-point arithmetic of the low-pass filter and of the detector's loudness (parameters of
-- Voice.G711 and Voice.LineSound), the redaction of plain text lines, the waiting times of timers
-- (a timer fires at any step), the limits of the waits for a stream in answer and dtmf, the file system under the gate (one file's status; a read may
-- fail), names of Object.prototype as verbs, the consult of the agent during a call with its prompts,
-- the settings of a voice session, the SDK's resamplers (a parameter of Voice.CallAudio), and
-- the questions that the navigator sends and what it logs. Of the runtime: the links and the speech
-- detectors it makes, the secrets it resolves, the context of a call and the reports it saves to disk.
-- Of a report: how its opening lines and the entries of its log read. The rest of the voice plugin and the
-- orchestrator, the Rust servers, the Android apps, the Python agent, the command line client and
-- the rendering of the web client are outside this library.
pub mod Prelude
pub mod Voice
pub mod Orchestrator
